-- ===== src/Native/Bridge.antt =====
-- crates/kunkka-native-host/src/bridge.rs: `NativeHostSession` turns a request of the extension into a
-- frame for the core and the core's answer into a response. The session's socket stands for the core's
-- address: `Core.connect` is `IpcConnection::connect`, which answers and moves the outside world on.
use kunkka.Base.{
  ℕ, ◌+◌, ◌%◌, ◌^◌, String, ◌<>◌, ◌==◌, Bool, true, false, not, Option, none, some, [], map, nat_eq,
  if◌then◌else◌,
}
use kunkka.Base.Text.Decimal.{decimal}
use kunkka.Base.Fallible.{Result, ok, err, ◌>>=◌, ◌>>◌, fail_if, map_err}
use kunkka.Ipc.{Frame, Payload, IpcError, ipc_display, Postcard, Transport}
use kunkka.Protocol.{
  CoreControlMessage, PendingApproval, FrontendDispatchRequest, FrontendDispatchResponse,
  FrontendDispatchMessage, encode_control_message, decode_control_message,
  encode_frontend_dispatch_message, decode_frontend_dispatch_message,
}
use kunkka.Native.{
  NativeHostError, native_display, code, code_text, SerdeJson, NativePendingApproval, NativeCommand,
  NativeRequest, NativeResult, NativeResponse, success_response, error_response,
}

abbrev pub json_content_type : String
json_content_type = "application/json"

-- The core behind its socket, and the texts of `{:?}`, which the compiler derives.
pub record Core (V : Type 0) : Type 1 where
  pub transport : Transport
  pub World : Type 0
  pub connect : String → World → Result IpcError transport.Connection × World
  pub controls : Postcard CoreControlMessage
  pub dispatches : Postcard FrontendDispatchMessage
  pub values : SerdeJson V
  pub debug_mismatch : NativeCommand V → CoreControlMessage → String
  pub debug_dispatch : FrontendDispatchMessage → String
  pub debug_content_type : Option String → String

pub record NativeHostSession {V : Type 0} (c : Core V) : Type 0 where
  pub socket_path : String
  pub connection : Option c.transport.Connection
  pub source : String
  pub target : String
  pub session_id : ℕ
  pub next_request_id : ℕ
  pub world : c.World

abbrev pub u128_mod : ℕ
u128_mod = 2 ^ 128

unfoldable pub native_approval : PendingApproval → NativePendingApproval
native_approval a = record {
  approval_id = a.approval_id;
  app_id = a.app_id;
  capability = a.capability;
  summary = a.summary;
}

unfoldable pub core_message_for_command :
    {V : Type 0} → NativeCommand V → Result NativeHostError CoreControlMessage
core_message_for_command NativeCommand.ping = ok CoreControlMessage.ping
core_message_for_command NativeCommand.status = ok CoreControlMessage.status
core_message_for_command (NativeCommand.dispatch app_id method payload) =
    err (NativeHostError.invalid_request "expected control command")
core_message_for_command NativeCommand.approvals_list = ok CoreControlMessage.list_pending_approvals
core_message_for_command (NativeCommand.approval_approve approval_id) =
    ok (CoreControlMessage.approve_pending_approval approval_id)
core_message_for_command (NativeCommand.approval_reject approval_id) =
    ok (CoreControlMessage.reject_pending_approval approval_id)

module _ {V : Type 0} (c : Core V) where
  -- `NativeHostSession::new`
  unfoldable pub new : String → c.World → NativeHostSession c
  new socket_path world = record {
    socket_path = socket_path;
    connection = none;
    source = "native-host";
    target = "core";
    session_id = 1;
    next_request_id = 1;
    world = world;
  }

  abbrev unexpected : NativeCommand V → CoreControlMessage → Result NativeHostError (NativeResult V)
  unexpected command message = err (
      NativeHostError.unexpected_core_response
        ("unexpected core response for " <> c.debug_mismatch command message))

  unfoldable pub native_result_for_core_response :
      NativeCommand V → CoreControlMessage → Result NativeHostError (NativeResult V)
  unfolding native_approval
  native_result_for_core_response NativeCommand.ping message = elim message [
    | CoreControlMessage.pong ↦ ok NativeResult.pong
    | other ↦ unexpected NativeCommand.ping other
  ]
  native_result_for_core_response NativeCommand.status message = elim message [
    | CoreControlMessage.status_result s ↦
        ok (NativeResult.status s.worker_count s.socket_path s.runtime_ready)
    | other ↦ unexpected NativeCommand.status other
  ]
  native_result_for_core_response NativeCommand.approvals_list message = elim message [
    | CoreControlMessage.pending_approvals_result approvals ↦
        ok (NativeResult.pending_approvals (map native_approval approvals))
    | other ↦ unexpected NativeCommand.approvals_list other
  ]
  native_result_for_core_response (NativeCommand.approval_approve approval_id) message =
      elim message [
        | CoreControlMessage.approval_decision_result ↦ ok NativeResult.approval_decision
        | other ↦ unexpected (NativeCommand.approval_approve approval_id) other
      ]
  native_result_for_core_response (NativeCommand.approval_reject approval_id) message =
      elim message [
        | CoreControlMessage.approval_decision_result ↦ ok NativeResult.approval_decision
        | other ↦ unexpected (NativeCommand.approval_reject approval_id) other
      ]
  native_result_for_core_response (NativeCommand.dispatch app_id method payload) message =
      unexpected (NativeCommand.dispatch app_id method payload) message

  unfoldable pub json_payload_for_native_value : V → Result NativeHostError Payload
  json_payload_for_native_value value = do
    bytes ← map_err NativeHostError.json (c.values.to_vec value)
    ok (record {
      bytes = bytes;
      content_type = some json_content_type;
      schema = none;
      metadata = [];
    })

  unfoldable pub frontend_dispatch_request_for_command :
      NativeCommand V → Result NativeHostError FrontendDispatchRequest
  unfolding json_payload_for_native_value
  frontend_dispatch_request_for_command command = elim command [
    | NativeCommand.dispatch app_id method payload ↦ do
      encoded ← json_payload_for_native_value payload
      ok (record { app_id = app_id; method = method; payload = encoded })
    | other ↦ err (NativeHostError.invalid_request "expected dispatch command")
  ]

  abbrev is_json : Option String → Bool
  is_json none = false
  is_json (some content_type) = content_type == json_content_type

  unfoldable pub native_value_for_json_payload : Payload → Result NativeHostError V
  native_value_for_json_payload payload =
      fail_if (not (is_json payload.content_type)) (
        NativeHostError.unexpected_core_response
          ("expected JSON dispatch payload, got " <> c.debug_content_type payload.content_type))
      >> map_err NativeHostError.json (c.values.from_slice payload.bytes)

  unfoldable pub native_result_for_frontend_dispatch_response :
      FrontendDispatchResponse → Result NativeHostError (NativeResult V)
  unfolding native_value_for_json_payload
  native_result_for_frontend_dispatch_response (FrontendDispatchResponse.done payload) = do
    value ← native_value_for_json_payload payload
    ok (NativeResult.dispatch value)
  native_result_for_frontend_dispatch_response (FrontendDispatchResponse.app_error code message) =
      ok (NativeResult.dispatch_error code message)
  native_result_for_frontend_dispatch_response
        (FrontendDispatchResponse.platform_error code message) =
      err (NativeHostError.core_platform code message)

  abbrev pub With : Type 0 → Type 0
  With A = Result NativeHostError A × NativeHostSession c

  abbrev core_ipc_of : IpcError → NativeHostError
  core_ipc_of e = NativeHostError.core_ipc (ipc_display e)

  -- What comes back for a request: the payload of the response frame that carries its id.
  unfoldable pub read_response : (request_id : ℕ) → Frame → Result NativeHostError Payload
  read_response request_id frame = elim frame [
    | Frame.response response_request_id session source target payload metadata ↦
        fail_if (not (nat_eq response_request_id request_id)) (
          NativeHostError.unexpected_core_response (
            "response request_id mismatch: expected "
            <> decimal request_id
            <> ", got "
            <> decimal response_request_id))
        >> ok payload
    | other ↦ err (NativeHostError.unexpected_core_response "expected response frame")
  ]

  unfoldable pub finish_recv :
      (request_id : ℕ)
      → Result IpcError (Option Frame) × c.transport.Connection
      → NativeHostSession c
      → With Payload
  unfolding read_response
  finish_recv request_id (err e, connection) s =
      (err (core_ipc_of e), record s { connection = some connection })
  finish_recv request_id (ok none, connection) s = (
    err (NativeHostError.core_ipc "core closed connection"),
    record s { connection = some connection },
  )
  finish_recv request_id (ok (some frame), connection) s =
      (read_response request_id frame, record s { connection = some connection })

  unfoldable pub finish_send :
      (request_id : ℕ)
      → Result IpcError (Unit {0}) × c.transport.Connection
      → NativeHostSession c
      → With Payload
  unfolding finish_recv
  finish_send request_id (err e, connection) s =
      (err (core_ipc_of e), record s { connection = some connection })
  finish_send request_id (ok _, connection) s =
      finish_recv request_id (c.transport.recv_frame connection) s

  abbrev pub request_frame : NativeHostSession c → ℕ → Payload → Frame
  request_frame s request_id payload =
      Frame.request request_id s.session_id s.source s.target payload []

  unfoldable pub advance_request_id : NativeHostSession c → NativeHostSession c
  advance_request_id s = record s { next_request_id = (s.next_request_id + 1) % u128_mod }

  -- `self.connection.as_mut().ok_or_else(..)?` and what is sent on it.
  unfoldable pub send_on :
      Option c.transport.Connection
      → (request_id : ℕ) → Payload
      → NativeHostSession c
      → With Payload
  unfolding finish_send
  send_on none request_id payload s =
      (err (NativeHostError.core_unavailable "core connection missing"), s)
  send_on (some connection) request_id payload s =
      finish_send request_id
        (c.transport.send_frame (request_frame s request_id payload) connection) s

  -- The part that both kinds of request share, up to the payload of the response.
  unfoldable pub exchange :
      (request_id : ℕ) → Result String Payload → NativeHostSession c → With Payload
  unfolding send_on
  exchange request_id (err e) s = (err (NativeHostError.core_ipc e), s)
  exchange request_id (ok payload) s = send_on s.connection request_id payload s

  -- The last step of a method, which reads a payload and leaves the session alone.
  abbrev pub then_read : {A : Type 0} → (Payload → Result NativeHostError A) → With Payload → With A
  then_read read (answer, s) = (answer >>= read, s)

  unfoldable pub send_core_control_on_cached_connection :
      CoreControlMessage → NativeHostSession c → With CoreControlMessage
  unfolding exchange advance_request_id
  send_core_control_on_cached_connection message s =
      then_read
        (λ payload. map_err NativeHostError.core_ipc (decode_control_message c.controls payload))
        (exchange s.next_request_id (encode_control_message c.controls message)
          (advance_request_id s))

  unfoldable pub read_dispatch_result : Payload → Result NativeHostError FrontendDispatchResponse
  read_dispatch_result payload = do
    message ←
        map_err NativeHostError.core_ipc (decode_frontend_dispatch_message c.dispatches payload)
    elim message [
      | FrontendDispatchMessage.dispatch_result response ↦ ok response
      | other ↦ err (
          NativeHostError.unexpected_core_response
            ("expected frontend dispatch result, got " <> c.debug_dispatch other))
    ]

  unfoldable pub send_frontend_dispatch_on_cached_connection :
      FrontendDispatchRequest → NativeHostSession c → With FrontendDispatchResponse
  unfolding exchange advance_request_id read_dispatch_result
  send_frontend_dispatch_on_cached_connection request s = then_read read_dispatch_result (
      exchange s.next_request_id
        (encode_frontend_dispatch_message c.dispatches (FrontendDispatchMessage.dispatch request))
        (advance_request_id s))

  abbrev pub connected :
      NativeHostSession c → Result IpcError c.transport.Connection × c.World → With (Unit {0})
  connected s (err e, world) =
      (err (NativeHostError.core_unavailable (ipc_display e)), record s { world = world })
  connected s (ok connection, world) =
      (ok tt, record s { connection = some connection; world = world })

  unfoldable pub connect_unless :
      Option c.transport.Connection → NativeHostSession c → With (Unit {0})
  connect_unless (some connection) s = (ok tt, s)
  connect_unless none s = connected s (c.connect s.socket_path s.world)

  unfoldable pub ensure_connection : NativeHostSession c → With (Unit {0})
  unfolding connect_unless
  ensure_connection s = connect_unless s.connection s

  -- `if result.is_err() { self.connection = None; }`
  unfoldable pub drop_on_error : {A : Type 0} → With A → With A
  drop_on_error (ok a, s) = (ok a, s)
  drop_on_error (err e, s) = (err e, record s { connection = none })

  -- `self.ensure_connection().await?` before the request and the check of its result.
  unfoldable pub on_connection :
      {A : Type 0} → (NativeHostSession c → With A) → With (Unit {0}) → With A
  unfolding drop_on_error
  on_connection send (err e, s) = (err e, s)
  on_connection send (ok _, s) = drop_on_error (send s)

  unfoldable pub send_core_control :
      CoreControlMessage → NativeHostSession c → With CoreControlMessage
  unfolding on_connection ensure_connection send_core_control_on_cached_connection
  send_core_control message s =
      on_connection (send_core_control_on_cached_connection message) (ensure_connection s)

  unfoldable pub send_frontend_dispatch :
      FrontendDispatchRequest → NativeHostSession c → With FrontendDispatchResponse
  unfolding on_connection ensure_connection send_frontend_dispatch_on_cached_connection
  send_frontend_dispatch request s =
      on_connection (send_frontend_dispatch_on_cached_connection request) (ensure_connection s)

  abbrev pub Answered : Type 0
  Answered = NativeResponse V × NativeHostSession c

  abbrev pub error_of : String → NativeHostError → NativeResponse V
  error_of id e = error_response (some id) (code_text (code e)) (native_display e)

  unfoldable pub respond_with : String → Result NativeHostError (NativeResult V) → NativeResponse V
  respond_with id (ok result) = success_response id result
  respond_with id (err e) = error_of id e

  abbrev pub finish_control : String → NativeCommand V → With CoreControlMessage → Answered
  finish_control id command (answer, s) =
      (respond_with id (answer >>= native_result_for_core_response command), s)

  abbrev pub respond_dispatch :
      String → Result NativeHostError FrontendDispatchResponse → NativeResponse V
  respond_dispatch id (err e) = error_of id e
  respond_dispatch id (ok (FrontendDispatchResponse.platform_error code message)) =
      error_response (some id) code message
  respond_dispatch id (ok (FrontendDispatchResponse.app_error code message)) = respond_with id (
      native_result_for_frontend_dispatch_response
        (FrontendDispatchResponse.app_error code message))
  respond_dispatch id (ok (FrontendDispatchResponse.done payload)) =
      respond_with id
        (native_result_for_frontend_dispatch_response (FrontendDispatchResponse.done payload))

  abbrev pub finish_dispatch : String → With FrontendDispatchResponse → Answered
  finish_dispatch id (answer, s) = (respond_dispatch id answer, s)

  unfoldable pub handle_control : String → NativeCommand V → NativeHostSession c → Answered
  unfolding send_core_control respond_with
  handle_control id command s = elim (core_message_for_command command) [
    | err e ↦ (error_of id e, s)
    | ok message ↦ finish_control id command (send_core_control message s)
  ]

  unfoldable pub handle_dispatch : String → NativeCommand V → NativeHostSession c → Answered
  unfolding send_frontend_dispatch respond_with
  handle_dispatch id command s = elim (frontend_dispatch_request_for_command command) [
    | err e ↦ (error_of id e, s)
    | ok request ↦ finish_dispatch id (send_frontend_dispatch request s)
  ]

  abbrev is_dispatch : NativeCommand V → Bool
  is_dispatch (NativeCommand.dispatch app_id method payload) = true
  is_dispatch NativeCommand.ping = false
  is_dispatch NativeCommand.status = false
  is_dispatch NativeCommand.approvals_list = false
  is_dispatch (NativeCommand.approval_approve approval_id) = false
  is_dispatch (NativeCommand.approval_reject approval_id) = false

  unfoldable pub handle_request : NativeRequest V → NativeHostSession c → Answered
  unfolding handle_control handle_dispatch
  handle_request request s =
      if is_dispatch request.command
      then handle_dispatch request.id request.command s
      else handle_control request.id request.command s
