-- ===== src/Dispatch/Processes.antt =====
-- What becomes of the process that the core starts for an app.
use kunkka.Base.{
  ℕ, ◌*◌, String, ◌≡◌, refl, ◌∙◌, ◌⊎◌, inl, inr, Option, none, some, List, ◌∷◌, arith, ◌==◌, eq_iff,
  eq_refl, if◌then◌else◌, Option-cases, Bool-cases,
}
use kunkka.Base.Map
use kunkka.Base.Map.{get-insert}
use kunkka.Base.Fallible.{Result, ok, err, Result-cases}
use kunkka.Ipc.{Postcard, Transport, Frame, IpcError}
use kunkka.Sdk.{AppId, RegisterWorkerRequest, WorkerProtocolMessage, decode_worker_message}
use kunkka.CoreError.{CoreError}
use kunkka.Manifest.{AppManifest}
use kunkka.Manifest.Loading
use kunkka.Dispatch.{
  ActiveWorker, WorkerManager, Os, request_parts, registration_of, mismatched, read_registration,
  finish_registration, finish_read, insert_active_worker,
  handle_registration_connection_with_expected_app,
}
use kunkka.Dispatch.Send.{
  Arrival, Started, settle_registration, await_registration, start_manifest,
  start_and_wait_for_registration,
}

if_self : {A : Type 0} (s : String) (x y : A) → (if s == s then x else y) ≡ x
if_self s x y = rw (eq_refl s) refl

module _ (t : Transport) (p : Postcard WorkerProtocolMessage) where
  read_registration-expected :
      (frame : Frame) (app_id : AppId) (request : RegisterWorkerRequest) (accepted : Frame)
      → read_registration t p frame (some app_id) ≡ ok (request, accepted)
      → (request.app_id ≡ app_id) × (request.worker_id ≡ app_id)
  unfolding read_registration
  read_registration-expected frame app_id request accepted h =
      elim (Option-cases (request_parts t p frame)) [
        | inl none_there ↦ absurd (ground (arith, none_there))
        | inr ((request_id, session_id, source, target, payload), parts) ↦
            elim (Result-cases (decode_worker_message p payload)) [
              | inl (e, bad) ↦ absurd (ground (arith, parts, bad))
              | inr (message, decoded) ↦ elim (Option-cases (registration_of t p message)) [
                | inl other ↦ absurd (ground (arith, parts, decoded, other))
                | inr (found, is) ↦ elim (Bool-cases (mismatched t p (some app_id) found)) [
                  | inl wrong ↦ absurd (ground (arith, parts, decoded, is, wrong))
                  | inr right ↦
                      let same : found ≡ request = ground (arith, parts, decoded, is, right) in
                      (
                        ground (arith, right, same, eq_iff found.app_id app_id),
                        ground (arith, right, same, eq_iff found.worker_id app_id),
                      )
                ]
              ]
            ]
      ]

  -- The worker of the app that was asked for holds the process, or the process was ended.
  abbrev pub Accounted : AppId → ℕ → WorkerManager t p → Started t p → Type 0
  Accounted app_id child before (r, after) =
      ((r ≡ ok tt)
        × ((worker : ActiveWorker t p) × (Map.get app_id after.active_workers ≡ some worker)
            × (worker.child ≡ some child)))
      ⊎ ((e : CoreError) × (r ≡ err e)
          × (after.terminated ≡ child ∷ before.terminated)
          × (after.active_workers ≡ before.active_workers))

  inserted :
      (request : RegisterWorkerRequest) (connection : t.Connection) (child idle now : ℕ)
      → (m : WorkerManager t p)
      → (worker : ActiveWorker t p) × (Map.get request.app_id
            (insert_active_worker t p request connection (some child) idle now m).active_workers
          ≡ some worker)
        × (worker.child ≡ some child)
  unfolding insert_active_worker
  inserted request connection child idle now m =
      let worker : ActiveWorker t p = record {
        worker_id = request.worker_id;
        connection = connection;
        child = some child;
        last_used_at = now;
        idle_timeout = idle * 1_000_000;
      } in
      (worker, get-insert request.app_id request.app_id worker _ ∙ if_self request.app_id _ _, refl)

  finish_registration-Accounted :
      (app_id : AppId) (request : RegisterWorkerRequest)
      → (sent : Result IpcError (Unit {0}) × t.Connection)
      → (child idle now : ℕ) (m : WorkerManager t p) → request.app_id ≡ app_id
      → Accounted app_id child m (finish_registration t p request sent (some child) idle now m)
  finish_registration-Accounted app_id request (ok u, connection) child idle now m same =
      let (worker, found, held) = inserted request connection child idle now m in
      inl (refl, (worker, rw (← same) found, held))
  finish_registration-Accounted app_id request (err e, connection) child idle now m same =
      inr (CoreError.ipc e, refl, refl, refl)

  finish_read-Accounted :
      (app_id : AppId) (frame : Frame) (r : Result CoreError (RegisterWorkerRequest × Frame))
      → (connection : t.Connection) (child idle now : ℕ) (m : WorkerManager t p)
      → read_registration t p frame (some app_id) ≡ r
      → Accounted app_id child m (finish_read t p r connection (some child) idle now m)
  finish_read-Accounted app_id frame (err e) connection child idle now m h =
      inr (e, refl, refl, refl)
  finish_read-Accounted app_id frame (ok (request, accepted)) connection child idle now m h =
      finish_registration-Accounted app_id request (t.send_frame accepted connection) child idle now
        m (read_registration-expected frame app_id request accepted h).0

  settle_registration-Accounted :
      (r : Result CoreError (Option (Frame × t.Connection))) (manifest : AppManifest)
      (app_id : AppId)
      → (child now : ℕ) (m : WorkerManager t p)
      → Accounted app_id child m (settle_registration t p r manifest app_id child now m)
  unfolding settle_registration handle_registration_connection_with_expected_app
  settle_registration-Accounted (ok (some (frame, connection))) manifest app_id child now m =
      finish_read-Accounted app_id frame (read_registration t p frame (some app_id)) connection
        child manifest.idle_timeout_ms now m refl
  settle_registration-Accounted (ok none) manifest app_id child now m = inr (_, refl, refl, refl)
  settle_registration-Accounted (err e) manifest app_id child now m = inr (e, refl, refl, refl)

  -- No process that is started for an app gets lost: when the operating system starts one, either the
  -- start succeeds and the app's connected worker holds the process, or it fails, the process has been
  -- killed and waited for, and the connected workers are as before. This holds for every sequence of
  -- connections that arrive meanwhile, with frames of other apps and failed or closed ones among them.
  pub start-Accounted :
      (os : Os) (app_id : AppId) (arrivals : List (Arrival t p)) (now : ℕ) (m : WorkerManager t p)
      → (manifest : AppManifest) (child : ℕ) → Loading.get m.app_registry app_id ≡ some manifest
      → os.spawn manifest m.socket_path ≡ ok child
      → Accounted app_id child m (start_and_wait_for_registration t p os app_id arrivals now m)
  unfolding start_and_wait_for_registration start_manifest
  start-Accounted os app_id arrivals now m manifest child known spawned =
      rw (known, start_and_wait_for_registration, start_manifest, spawned)
        (settle_registration-Accounted (await_registration t p app_id arrivals) manifest app_id
          child now m)
