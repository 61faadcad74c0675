-- ===== src/Dispatch/Send.antt =====
-- `start_and_wait_for_registration`, `dispatch`, `dispatch_with_start` and `send_dispatch_frame` of
-- crates/kunkka-core/src/worker_dispatch.rs.
use kunkka.Base.{
  ℕ, ◌+◌, ◌%◌, ◌^◌, String, ◌<>◌, ◌==◌, Bool, true, false, not, ◌&&◌, Option, none, some, List, [],
  ◌∷◌, nat_eq, if◌then◌else◌,
}
use kunkka.Base.Text.Decimal.{decimal}
use kunkka.Base.Text.Trim.{is_empty_text}
use kunkka.Base.Map
use kunkka.Base.Fallible.{Result, ok, err, ◌>>=◌, ◌>>◌, fail_if, ok_or, map_err}
use kunkka.Ipc.{Frame, Payload, IpcError, ipc_display, Postcard, Transport}
use kunkka.Sdk.{
  AppId, WorkerProtocolMessage, dispatch_worker, dispatch_worker_result, done, failed, sdk_display,
  encode_worker_message, decode_worker_message,
}
use kunkka.Sdk.Debug.{debug_worker_message}
use kunkka.CoreError.{CoreError}
use kunkka.Manifest.{AppManifest}
use kunkka.Manifest.Loading
use kunkka.Dispatch.{
  Os, DispatchResult, answered, app_error, ActiveWorker, WorkerManager, kill, forget, request_parts,
  registration_of, handle_registration_connection_with_expected_app,
}

abbrev pub u128_mod : ℕ
u128_mod = 2 ^ 128

module _ (t : Transport) (p : Postcard WorkerProtocolMessage) where
  -- What the `select!` loop of a starting worker meets: a failed `accept_one`, or a new connection that
  -- has sent its first frame, or has closed before (`none`).
  pub data Arrival : Type 0 where
    accept_failed : CoreError → Arrival
    candidate : Option (Frame × t.Connection) → Arrival

  unfoldable pub registration_matches_expected_app : Frame → AppId → Bool
  registration_matches_expected_app frame expected = elim (request_parts t p frame) [
    | none ↦ false
    | some (request_id, session_id, source, target, payload) ↦
        elim (decode_worker_message p payload) [
          | err e ↦ false
          | ok message ↦ elim (registration_of t p message) [
            | none ↦ false
            | some request ↦ request.app_id == expected && request.worker_id == expected
          ]
        ]
  ]

  -- The loop under `timeout`; `ok none` is the timeout.
  unfoldable pub await_registration :
      AppId → List Arrival → Result CoreError (Option (Frame × t.Connection))
  unfolding registration_matches_expected_app
  await_registration app_id [] = ok none
  await_registration app_id (accept_failed e ∷ rest) = err e
  await_registration app_id (candidate none ∷ rest) = await_registration app_id rest
  await_registration app_id (candidate (some (frame, connection)) ∷ rest) =
      elim (registration_matches_expected_app frame app_id) [
        | true ↦ ok (some (frame, connection))
        | false ↦ await_registration app_id rest
      ]

  abbrev pub Started : Type 0
  Started = Result CoreError (Unit {0}) × WorkerManager t p

  abbrev start_timeout : AppManifest → CoreError
  start_timeout manifest = CoreError.worker_start_timeout (
      "worker for app "
      <> manifest.app_id
      <> " did not register within "
      <> decimal manifest.startup_timeout_ms
      <> " ms")

  -- The `match registration`, for the process that was spawned.
  unfoldable pub settle_registration :
      Result CoreError (Option (Frame × t.Connection))
      → AppManifest
      → AppId
      → (child now : ℕ) → WorkerManager t p
      → Started
  settle_registration (ok (some (frame, connection))) manifest app_id child now m =
      handle_registration_connection_with_expected_app t p frame connection (some child)
        manifest.idle_timeout_ms (some app_id) now m
  settle_registration (err e) manifest app_id child now m =
      (err e, record m { terminated = kill t p (some child) m.terminated })
  settle_registration (ok none) manifest app_id child now m =
      (err (start_timeout manifest), record m { terminated = kill t p (some child) m.terminated })

  unfoldable pub start_manifest :
      Os → AppManifest → AppId → List Arrival → (now : ℕ) → WorkerManager t p → Started
  unfolding settle_registration await_registration
  start_manifest os manifest app_id arrivals now m = elim (os.spawn manifest m.socket_path) [
    | err e ↦ (
      err (
          CoreError.worker_start_failed
            ("failed to start worker for app " <> manifest.app_id <> ": " <> e)),
      m,
    )
    | ok child ↦
        settle_registration (await_registration app_id arrivals) manifest app_id child now m
  ]

  unfoldable pub start_and_wait_for_registration :
      Os → AppId → List Arrival → (now : ℕ) → WorkerManager t p → Started
  unfolding start_manifest
  start_and_wait_for_registration os app_id arrivals now m =
      elim (Loading.get m.app_registry app_id) [
        | none ↦ (err (CoreError.app_not_found app_id), m)
        | some manifest ↦ start_manifest os manifest app_id arrivals now m
      ]

  abbrev closed : CoreError
  closed = CoreError.dispatch_ipc_error "worker closed connection"

  abbrev dispatch_ipc : IpcError → CoreError
  dispatch_ipc e = CoreError.dispatch_ipc_error (ipc_display e)

  -- The end of `send_dispatch_frame`: what a decoded message answers.
  abbrev pub result_of : WorkerProtocolMessage → Result CoreError DispatchResult
  result_of (dispatch_worker_result (done payload)) = ok (answered payload)
  result_of (dispatch_worker_result (failed e)) = ok (app_error e.code e.message)
  result_of other = err (
      CoreError.unexpected_worker_response
        ("expected DispatchWorkerResult, got " <> debug_worker_message other))

  abbrev response_parts : Frame → Option (ℕ × Payload)
  response_parts (Frame.response request_id session_id source target payload metadata) =
      some (request_id, payload)
  response_parts _ = none

  -- What `send_dispatch_frame` makes of the frame that it receives.
  unfoldable pub read_response : ℕ → Option Frame → Result CoreError DispatchResult
  read_response request_id received = do
    frame ← ok_or received closed
    (response_request_id, payload) ←
        ok_or (response_parts frame)
          (CoreError.unexpected_worker_response "expected response frame")
    fail_if (not (nat_eq response_request_id request_id)) (
        CoreError.unexpected_worker_response (
          "response request_id mismatch: expected "
          <> decimal request_id
          <> ", got "
          <> decimal response_request_id))
    message ←
        map_err
          (λ e.
            CoreError.unexpected_worker_response
              ("failed to decode worker response: " <> sdk_display e))
          (decode_worker_message p payload)
    result_of message

  unfoldable pub send_dispatch_frame :
      t.Connection → Frame → ℕ → Result CoreError DispatchResult × t.Connection
  unfolding read_response
  send_dispatch_frame connection frame request_id =
      let (sent, waiting) = t.send_frame frame connection in
      elim sent [
        | err e ↦ (err (dispatch_ipc e), waiting)
        | ok _ ↦
            let (received, after) = t.recv_frame waiting in
            (map_err dispatch_ipc received >>= read_response request_id, after)
      ]

  abbrev pub Dispatched : Type 0
  Dispatched = Result CoreError DispatchResult × WorkerManager t p

  -- `request_id` and the frame that carries the request.
  unfoldable pub dispatch_frame : AppId → String → Payload → ℕ → String → Result CoreError Frame
  dispatch_frame app_id method payload request_id worker_id = do
    frame_payload ← map_err CoreError.worker_sdk (
        encode_worker_message p
          (dispatch_worker (record { app_id = app_id; method = method; payload = payload })))
    ok (Frame.request request_id 1 "core" ("worker:" <> worker_id) frame_payload [])

  -- The `match result` of `dispatch`.
  unfoldable pub finish_dispatch :
      AppId
      → (now : ℕ) → ActiveWorker t p
      → Result CoreError DispatchResult × t.Connection
      → WorkerManager t p
      → Dispatched
  finish_dispatch app_id now active (ok result, connection) m = (
    ok result,
    record m {
      active_workers =
          Map.insert app_id (record active { connection = connection; last_used_at = now })
            m.active_workers;
    },
  )
  finish_dispatch app_id now active (err e, connection) m = (err e, forget t p app_id m)

  unfoldable pub dispatch_active :
      Option (ActiveWorker t p)
      → AppId
      → String
      → Payload
      → (request_id now : ℕ) → WorkerManager t p
      → Dispatched
  unfolding dispatch_frame send_dispatch_frame finish_dispatch
  dispatch_active none app_id method payload request_id now m =
      (err (CoreError.worker_unavailable ("no active worker for app " <> app_id)), m)
  dispatch_active (some active) app_id method payload request_id now m =
      elim (dispatch_frame app_id method payload request_id active.worker_id) [
        | err e ↦ (err e, m)
        | ok frame ↦
            finish_dispatch app_id now active
              (send_dispatch_frame active.connection frame request_id) m
      ]

  unfoldable pub dispatch : AppId → String → Payload → (now : ℕ) → WorkerManager t p → Dispatched
  unfolding dispatch_active
  dispatch app_id method payload now m =
      if is_empty_text method
      then (err (CoreError.unexpected_worker_response "dispatch method is empty"), m)
      else dispatch_active (Map.get app_id m.active_workers) app_id method payload m.next_request_id
          now (record m { next_request_id = (m.next_request_id + 1) % u128_mod })

  unfoldable pub dispatch_started : Started → AppId → String → Payload → (now : ℕ) → Dispatched
  dispatch_started (err e, m) app_id method payload now = (err e, m)
  dispatch_started (ok _, m) app_id method payload now = dispatch app_id method payload now m

  unfoldable pub dispatch_with_start :
      Os → List Arrival → AppId → String → Payload → (now : ℕ) → WorkerManager t p → Dispatched
  unfolding dispatch_started start_and_wait_for_registration
  dispatch_with_start os arrivals app_id method payload now m =
      elim (Map.get app_id m.active_workers) [
        | some _ ↦ dispatch app_id method payload now m
        | none ↦
            dispatch_started (start_and_wait_for_registration os app_id arrivals now m) app_id
              method payload now
      ]
