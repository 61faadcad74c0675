-- ===== src/Dispatch.antt =====
-- crates/kunkka-core/src/worker_dispatch.rs: the worker processes that the core starts, and how it
-- sends them a request. The operating system, the sockets and postcard are the parameters of the
-- section: `Os` starts a process, `Transport` is a connection, and `server` is what the core's socket
-- yields while a worker starts up, in order, the end of the list being the startup timeout.
-- `Instant::now()` is an argument, in nanoseconds. Log lines are left out.
pub mod Send
pub mod Consistent
pub mod Answered
pub mod Replies
pub mod Started
pub mod Processes
use kunkka.Base.{
  ℕ, ◌+◌, ◌-◌, ◌*◌, ◌%◌, ◌^◌, String, ◌<>◌, ◌==◌, Bool, true, false, not, ◌&&◌, ◌||◌, Option, none,
  some, List, [], ◌∷◌, leb, nat_eq, if◌then◌else◌,
}
use kunkka.Base.Text.Decimal.{decimal}
use kunkka.Base.Text.Trim.{is_empty_text}
use kunkka.Base.Map
use kunkka.Base.Map.{Map}
use kunkka.Base.Fallible.{Result, ok, err, ◌>>=◌, ◌>>◌, fail_if, ok_or, map_err}
use kunkka.Ipc.{Frame, Payload, FrameMetadata, IpcError, ipc_display, Postcard, Transport}
use kunkka.Sdk.{
  AppId, WorkerId, WorkerSdkError, sdk_display, WorkerProtocolMessage, register_worker,
  register_worker_accepted, dispatch_worker, dispatch_worker_result, RegisterWorkerRequest,
  RegisterWorkerResponse, DispatchWorkerResponse, done, failed, encode_worker_message,
  decode_worker_message,
}
use kunkka.CoreError
use kunkka.CoreError.{CoreError}
use kunkka.Manifest.{AppManifest}
use kunkka.Manifest.Loading
use kunkka.Manifest.Loading.{AppRegistry}
use kunkka.Registry
use kunkka.Registry.{WorkerRegistry}

pub data DispatchResult : Type 0 where
  answered : Payload → DispatchResult
  app_error : (code message : String) → DispatchResult

-- `std::process::Command::spawn` for a manifest and a socket path: the process id, or an error's text.
pub record Os : Type 0 where
  pub spawn : AppManifest → String → Result String ℕ

abbrev pub target_or_core : String → String
target_or_core target = if is_empty_text target then "core" else target

module _ (t : Transport) (p : Postcard WorkerProtocolMessage) where
  pub record ActiveWorker : Type 0 where
    pub worker_id : WorkerId
    pub connection : t.Connection
    pub child : Option ℕ
    pub last_used_at : ℕ
    pub idle_timeout : ℕ

  -- `terminated` lists the processes that were killed and waited for, the latest first.
  pub record WorkerManager : Type 0 where
    pub registry : WorkerRegistry
    pub app_registry : AppRegistry
    pub socket_path : String
    pub active_workers : Map ActiveWorker
    pub next_request_id : ℕ
    pub terminated : List ℕ

  abbrev pub with_app_registry : AppRegistry → String → WorkerManager
  with_app_registry app_registry socket_path = record {
    registry = Registry.new;
    app_registry = app_registry;
    socket_path = socket_path;
    active_workers = Map.empty;
    next_request_id = 1;
    terminated = [];
  }

  -- `child.kill()` and `child.wait()`, of a child that may be there.
  abbrev pub kill : Option ℕ → List ℕ → List ℕ
  kill none terminated = terminated
  kill (some pid) terminated = pid ∷ terminated

  -- `active_workers.remove(app_id)` and `terminate` of the worker that stood there.
  unfoldable pub drop_active : AppId → WorkerManager → WorkerManager
  drop_active app_id m = elim (Map.get app_id m.active_workers) [
    | none ↦ m
    | some worker ↦ record m {
      active_workers = Map.remove app_id m.active_workers;
      terminated = kill worker.child m.terminated;
    }
  ]

  abbrev pub forget : AppId → WorkerManager → WorkerManager
  forget app_id m =
      let dropped = drop_active app_id m in
      record dropped { registry = (Registry.remove_by_app_id app_id dropped.registry).1 }

  -- The app ids that the `filter_map` of `reap_idle_workers` collects.
  unfoldable pub expired_apps : ℕ → Map ActiveWorker → List AppId
  expired_apps now [] = []
  expired_apps now ((app_id, worker) ∷ rest) =
      elim (leb worker.idle_timeout (now - worker.last_used_at)) [
        | true ↦ app_id ∷ expired_apps now rest
        | false ↦ expired_apps now rest
      ]

  unfoldable pub forget_all : List AppId → WorkerManager → WorkerManager
  unfolding drop_active
  forget_all [] m = m
  forget_all (app_id ∷ rest) m = forget_all rest (forget app_id m)

  unfoldable pub reap_idle_workers : ℕ → WorkerManager → WorkerManager
  unfolding expired_apps forget_all
  reap_idle_workers now m = forget_all (expired_apps now m.active_workers) m

  -- The first `if` of `insert_active_worker`: the worker leaves the app that it served before.
  abbrev pub leave_previous :
      Option Registry.RegisteredWorker → AppId → WorkerManager → WorkerManager
  leave_previous none app_id m = m
  leave_previous (some registered) app_id m =
      if not (registered.app_id == app_id) then drop_active registered.app_id m else m

  unfoldable pub insert_active_worker :
      RegisterWorkerRequest
      → t.Connection
      → Option ℕ
      → (idle_timeout_ms now : ℕ) → WorkerManager
      → WorkerManager
  unfolding drop_active
  insert_active_worker request connection child idle_timeout_ms now m =
      let app_id = request.app_id in
      let worker_id = request.worker_id in
      let left = leave_previous (Map.get worker_id m.registry.workers) app_id m in
      let registered = record left { registry = (Registry.register request left.registry).1 } in
      let dropped = drop_active app_id registered in
      record dropped {
        active_workers =
            Map.insert app_id
              (record {
                worker_id = worker_id;
                connection = connection;
                child = child;
                last_used_at = now;
                idle_timeout = idle_timeout_ms * 1_000_000;
              })
              dropped.active_workers;
      }

  -- The frame's payload and addresses, of a request frame.
  abbrev pub RequestParts : Type 0
  RequestParts = ℕ × ℕ × String × String × Payload

  abbrev pub request_parts : Frame → Option RequestParts
  request_parts (Frame.request request_id session_id source target payload metadata) =
      some (request_id, session_id, source, target, payload)
  request_parts _ = none

  abbrev pub registration_of : WorkerProtocolMessage → Option RegisterWorkerRequest
  registration_of (register_worker request) = some request
  registration_of _ = none

  abbrev pub mismatched : Option AppId → RegisterWorkerRequest → Bool
  mismatched none request = false
  mismatched (some expected) request =
      not (request.app_id == expected) || not (request.worker_id == expected)

  abbrev mismatch_text : Option AppId → RegisterWorkerRequest → String
  mismatch_text none request = ""
  mismatch_text (some expected) request =
      "worker registration mismatch for app " <> expected <> ": got app " <> request.app_id
      <> " worker " <> request.worker_id

  -- The `async` block that reads a registration and makes the frame that accepts it.
  unfoldable pub read_registration :
      Frame → Option AppId → Result CoreError (RegisterWorkerRequest × Frame)
  read_registration frame expected_app_id = do
    (request_id, session_id, source, target, payload) ←
        ok_or (request_parts frame) (CoreError.invalid_worker_frame "expected request frame")
    message ← map_err CoreError.worker_sdk (decode_worker_message p payload)
    request ←
        ok_or (registration_of message)
          (CoreError.invalid_worker_frame "expected worker registration request")
    fail_if (mismatched expected_app_id request)
        (CoreError.unexpected_worker_response (mismatch_text expected_app_id request))
    let response : RegisterWorkerResponse = record {
      worker_id = request.worker_id;
      accepted = true;
      message = none;
    }
    response_payload ←
        map_err CoreError.worker_sdk (encode_worker_message p (register_worker_accepted response))
    ok (
      request,
      Frame.response request_id session_id (target_or_core target) source response_payload [],
    )

  -- `connection.send_frame(&response_frame).await?` and the final `match`.
  abbrev pub finish_registration :
      RegisterWorkerRequest
      → Result IpcError (Unit {0}) × t.Connection
      → Option ℕ
      → (idle_timeout_ms now : ℕ) → WorkerManager
      → Result CoreError (Unit {0}) × WorkerManager
  finish_registration request (ok _, connection) child idle_timeout_ms now m =
      (ok tt, insert_active_worker request connection child idle_timeout_ms now m)
  finish_registration request (err e, connection) child idle_timeout_ms now m =
      (err (CoreError.ipc e), record m { terminated = kill child m.terminated })

  abbrev pub finish_read :
      Result CoreError (RegisterWorkerRequest × Frame)
      → t.Connection
      → Option ℕ
      → (idle_timeout_ms now : ℕ) → WorkerManager
      → Result CoreError (Unit {0}) × WorkerManager
  finish_read (err e) connection child idle_timeout_ms now m =
      (err e, record m { terminated = kill child m.terminated })
  finish_read (ok (request, accepted)) connection child idle_timeout_ms now m =
      finish_registration request (t.send_frame accepted connection) child idle_timeout_ms now m

  unfoldable pub handle_registration_connection_with_expected_app :
      Frame
      → t.Connection
      → Option ℕ
      → (idle_timeout_ms : ℕ) → Option AppId
      → (now : ℕ) → WorkerManager
      → Result CoreError (Unit {0}) × WorkerManager
  unfolding read_registration insert_active_worker
  handle_registration_connection_with_expected_app frame connection child idle_timeout_ms expected
        now m =
      finish_read (read_registration frame expected) connection child idle_timeout_ms now m

  abbrev pub handle_registration_connection :
      Frame
      → t.Connection
      → Option ℕ
      → (idle_timeout_ms now : ℕ) → WorkerManager
      → Result CoreError (Unit {0}) × WorkerManager
  handle_registration_connection frame connection child idle_timeout_ms now m =
      handle_registration_connection_with_expected_app frame connection child idle_timeout_ms none
        now m
