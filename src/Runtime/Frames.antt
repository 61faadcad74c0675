-- ===== src/Runtime/Frames.antt =====
-- `handle_frontend_frame` of crates/kunkka-core/src/runtime.rs and the two handlers under it: what the
-- core answers to a frontend's frame. `u64` of the worker count holds any count of workers.
use kunkka.Base.{ℕ, String, ◌<>◌, ◌==◌, true, Option, none, some, List, [], ◌∷◌, if◌then◌else◌}
use kunkka.Base.Fallible.{Result, ok, err, ◌>>=◌, ok_or, map_err}
use kunkka.Ipc.{Frame, Payload, Transport}
use kunkka.CoreError.{CoreError}
use kunkka.Protocol
use kunkka.Protocol.{
  CoreControlMessage, FrontendDispatchRequest, FrontendDispatchResponse, FrontendDispatchMessage,
  CoreStatusResponse, ping, pong, status, status_result, list_pending_approvals,
  pending_approvals_result, approve_pending_approval, reject_pending_approval,
  approval_decision_result, get_theme, get_theme_result, set_theme, set_theme_result,
  core_control_schema, frontend_dispatch_schema, encode_control_message, decode_control_message,
  encode_frontend_dispatch_message, decode_frontend_dispatch_message,
}
use kunkka.Approval.{list_pending, approve, reject}
use kunkka.Registry
use kunkka.Theme.{switch_flavor}
use kunkka.Dispatch.{request_parts, target_or_core}
use kunkka.Dispatch.Send.{Arrival}
use kunkka.Runtime.{Env, Core, handle_frontend_dispatch_request}

module _ (t : Transport) (env : Env t) where
  unfoldable pub frame_schema : Frame → Option String
  frame_schema (Frame.request _ _ _ _ payload _) = payload.schema
  frame_schema (Frame.response _ _ _ _ payload _) = payload.schema
  frame_schema (Frame.event _ _ _ _ payload _) = payload.schema
  frame_schema (Frame.stream _ _ _ _ _ payload _ _) = payload.schema
  frame_schema (Frame.cancel _ _ _ _ _ _ _) = none
  frame_schema (Frame.heartbeat _ _ _ _) = none
  frame_schema (Frame.error _ _ _ _ _ _ _ _) = none

  -- The result of `switch_flavor` and what is sent to the other frontends.
  abbrev finish_set_theme :
      Protocol.ThemeFlavor
      → Core t env
      → Result String (Unit {0})
      → Result CoreError CoreControlMessage × Core t env
  finish_set_theme flavor c (err e) = (err (CoreError.config ("Failed to switch theme: " <> e)), c)
  finish_set_theme flavor c (ok _) =
      (ok set_theme_result, record c { broadcast = flavor ∷ c.broadcast })

  -- The `match` of `handle_control_frame`.
  unfoldable pub handle_control_message :
      (now : ℕ) → CoreControlMessage → Core t env → Result CoreError CoreControlMessage × Core t env
  unfolding switch_flavor
  handle_control_message now ping c = (ok pong, c)
  handle_control_message now status c = (
    ok (
        status_result (record {
          worker_count = Registry.len c.manager.registry;
          socket_path = env.socket_path;
          runtime_ready = true;
        })),
    c,
  )
  handle_control_message now list_pending_approvals c =
      let (items, approvals) = list_pending now c.approvals in
      (ok (pending_approvals_result items), record c { approvals = approvals })
  handle_control_message now (approve_pending_approval id) c =
      (ok approval_decision_result, record c { approvals = approve id now c.approvals })
  handle_control_message now (reject_pending_approval id) c =
      (ok approval_decision_result, record c { approvals = reject id now c.approvals })
  handle_control_message now get_theme c = (ok (get_theme_result c.theme.active_flavor), c)
  handle_control_message now (set_theme flavor) c =
      let (saved, theme) = switch_flavor env.save_theme flavor c.theme in
      finish_set_theme flavor (record c { theme = theme }) saved
  handle_control_message now _ c =
      (err (CoreError.invalid_core_frame "expected core control request"), c)

  -- The response frame that both handlers build from the request's parts and their payload.
  abbrev pub reply : ℕ × ℕ × String × String × Payload → Payload → Frame
  reply (request_id, session_id, source, target, _) payload =
      Frame.response request_id session_id (target_or_core target) source payload []

  abbrev pub Handled : Type 0
  Handled = Result CoreError Frame × Core t env

  abbrev pub parts_of : Frame → Result CoreError (ℕ × ℕ × String × String × Payload)
  parts_of frame =
      ok_or (request_parts t env.worker_messages frame)
        (CoreError.invalid_core_frame "expected request frame")

  abbrev encode_control : CoreControlMessage → Result CoreError Payload
  encode_control message =
      map_err CoreError.protocol (encode_control_message env.control_messages message)

  abbrev pub decode_control : Payload → Result CoreError CoreControlMessage
  decode_control payload =
      map_err CoreError.protocol (decode_control_message env.control_messages payload)

  unfoldable pub answer_control :
      (now : ℕ)
      → ℕ × ℕ × String × String × Payload
      → Result CoreError CoreControlMessage
      → Core t env
      → Handled
  unfolding handle_control_message
  answer_control now parts (err e) c = (err e, c)
  answer_control now parts (ok message) c =
      let (response, after) = handle_control_message now message c in
      ((response >>= encode_control) >>= λ payload. ok (reply parts payload), after)

  unfoldable pub handle_control_parts :
      (now : ℕ) → Result CoreError (ℕ × ℕ × String × String × Payload) → Core t env → Handled
  unfolding answer_control
  handle_control_parts now (err e) c = (err e, c)
  handle_control_parts now (ok (request_id, session_id, source, target, payload)) c =
      answer_control now (request_id, session_id, source, target, payload) (decode_control payload)
        c

  unfoldable pub handle_control_frame : (now : ℕ) → Frame → Core t env → Handled
  unfolding handle_control_parts
  handle_control_frame now frame c = handle_control_parts now (parts_of frame) c

  abbrev encode_dispatch : FrontendDispatchResponse → Result CoreError Payload
  encode_dispatch response = map_err CoreError.protocol (
      encode_frontend_dispatch_message env.dispatch_messages
        (FrontendDispatchMessage.dispatch_result response))

  abbrev pub decode_dispatch : Payload → Result CoreError FrontendDispatchMessage
  decode_dispatch payload =
      map_err CoreError.protocol (decode_frontend_dispatch_message env.dispatch_messages payload)

  unfoldable pub answer_dispatch :
      List (Arrival t env.worker_messages)
      → (now : ℕ) → ℕ × ℕ × String × String × Payload
      → Result CoreError FrontendDispatchMessage
      → Core t env
      → Handled
  answer_dispatch arrivals now parts (err e) c = (err e, c)
  answer_dispatch arrivals now parts (ok (FrontendDispatchMessage.dispatch_result _)) c =
      (err (CoreError.invalid_core_frame "expected frontend dispatch request"), c)
  answer_dispatch arrivals now parts (ok (FrontendDispatchMessage.dispatch request)) c =
      let (response, after) = handle_frontend_dispatch_request t env arrivals now request c in
      (encode_dispatch response >>= λ payload. ok (reply parts payload), after)

  unfoldable pub handle_dispatch_parts :
      List (Arrival t env.worker_messages)
      → (now : ℕ) → Result CoreError (ℕ × ℕ × String × String × Payload)
      → Core t env
      → Handled
  unfolding answer_dispatch
  handle_dispatch_parts arrivals now (err e) c = (err e, c)
  handle_dispatch_parts arrivals now (ok (request_id, session_id, source, target, payload)) c =
      answer_dispatch arrivals now (request_id, session_id, source, target, payload)
        (decode_dispatch payload) c

  unfoldable pub handle_frontend_dispatch_frame :
      List (Arrival t env.worker_messages) → (now : ℕ) → Frame → Core t env → Handled
  unfolding handle_dispatch_parts
  handle_frontend_dispatch_frame arrivals now frame c =
      handle_dispatch_parts arrivals now (parts_of frame) c

  abbrev by_schema :
      Option String
      → List (Arrival t env.worker_messages)
      → (now : ℕ) → Frame
      → Core t env
      → Handled
  by_schema none arrivals now frame c =
      (err (CoreError.invalid_core_frame "missing payload schema"), c)
  by_schema (some schema) arrivals now frame c =
      if schema == core_control_schema
      then handle_control_frame now frame c
      else if schema == frontend_dispatch_schema
      then handle_frontend_dispatch_frame arrivals now frame c
      else (err (CoreError.invalid_core_frame ("unknown payload schema: " <> schema)), c)

  unfoldable pub handle_frontend_frame :
      List (Arrival t env.worker_messages) → (now : ℕ) → Frame → Core t env → Handled
  unfolding frame_schema handle_control_frame handle_frontend_dispatch_frame
  handle_frontend_frame arrivals now frame c = by_schema (frame_schema frame) arrivals now frame c
