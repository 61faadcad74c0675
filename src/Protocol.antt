-- ===== src/Protocol.antt =====
-- crates/kunkka-protocol/src/core_control.rs and frontend_dispatch.rs: the typed messages between the
-- core and its frontends, and the payloads that carry them. A message with no field is a constructor
-- with no argument, and a message with one field carries that field.
use kunkka.Base.{ℕ, String, ◌≡◌, Bool, some, List, [], arith}
use kunkka.Base.Fallible.{Result, ok, ◌>>=◌, >>=-eq-ok}
use kunkka.Ipc.{Bytes, Payload, Postcard}

abbrev pub core_control_content_type : String
core_control_content_type = "application/vnd.kunkka.core-control.v1+postcard"

abbrev pub core_control_schema : String
core_control_schema = "kunkka.core-control.v1"

abbrev pub frontend_dispatch_content_type : String
frontend_dispatch_content_type = "application/vnd.kunkka.frontend-dispatch.v1+postcard"

abbrev pub frontend_dispatch_schema : String
frontend_dispatch_schema = "kunkka.frontend-dispatch.v1"

pub record CoreStatusResponse : Type 0 where
  pub worker_count : ℕ
  pub socket_path : String
  pub runtime_ready : Bool

pub record PendingApproval : Type 0 where
  pub approval_id : String
  pub app_id : String
  pub capability : String
  pub summary : String

pub data ThemeFlavor : Type 0 where
  latte macchiato : ThemeFlavor

pub data CoreControlMessage : Type 0 where
  ping pong status list_pending_approvals approval_decision_result : CoreControlMessage
  get_theme set_theme_result : CoreControlMessage
  status_result : CoreStatusResponse → CoreControlMessage
  pending_approvals_result : List PendingApproval → CoreControlMessage
  approve_pending_approval reject_pending_approval : (approval_id : String) → CoreControlMessage
  get_theme_result set_theme theme_changed : (flavor : ThemeFlavor) → CoreControlMessage

pub record FrontendDispatchRequest : Type 0 where
  pub app_id : String
  pub method : String
  pub payload : Payload

pub data FrontendDispatchResponse : Type 0 where
  done : Payload → FrontendDispatchResponse
  app_error platform_error : (code message : String) → FrontendDispatchResponse

pub data FrontendDispatchMessage : Type 0 where
  dispatch : FrontendDispatchRequest → FrontendDispatchMessage
  dispatch_result : FrontendDispatchResponse → FrontendDispatchMessage

module _ (p : Postcard CoreControlMessage) where
  unfoldable pub encode_control_message : CoreControlMessage → Result String Payload
  encode_control_message message = do
    bytes ← p.to_stdvec message
    ok (record {
      bytes = bytes;
      content_type = some core_control_content_type;
      schema = some core_control_schema;
      metadata = [];
    })

  unfoldable pub decode_control_message : Payload → Result String CoreControlMessage
  decode_control_message payload = p.from_bytes payload.bytes

  -- A payload that was encoded holds what postcard wrote, and names the protocol.
  pub encode_control_message-eq-ok :
      (m : CoreControlMessage) (payload : Payload)
      → encode_control_message m ≡ ok payload
      → (bytes : Bytes) × (p.to_stdvec m ≡ ok bytes)
        × (payload ≡ record {
          bytes = bytes;
          content_type = some "application/vnd.kunkka.core-control.v1+postcard";
          schema = some "kunkka.core-control.v1";
          metadata = [];
        })
  unfolding encode_control_message
  encode_control_message-eq-ok m payload h =
      let (bytes, written, same) = >>=-eq-ok (p.to_stdvec m) _ h in
      (bytes, written, ground (arith, same))

  pub decode_control_message-eq-ok :
      (payload : Payload) (m : CoreControlMessage)
      → decode_control_message payload ≡ ok m
      → p.from_bytes payload.bytes ≡ ok m
  unfolding decode_control_message
  decode_control_message-eq-ok payload m h = h

module _ (p : Postcard FrontendDispatchMessage) where
  unfoldable pub encode_frontend_dispatch_message : FrontendDispatchMessage → Result String Payload
  encode_frontend_dispatch_message message = do
    bytes ← p.to_stdvec message
    ok (record {
      bytes = bytes;
      content_type = some frontend_dispatch_content_type;
      schema = some frontend_dispatch_schema;
      metadata = [];
    })

  unfoldable pub decode_frontend_dispatch_message : Payload → Result String FrontendDispatchMessage
  decode_frontend_dispatch_message payload = p.from_bytes payload.bytes
