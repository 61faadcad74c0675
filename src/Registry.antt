-- ===== src/Registry.antt =====
-- crates/kunkka-core/src/worker_registry.rs: which worker serves which app.
pub mod Bijection
pub mod Removal
pub mod Registration
use kunkka.Base.{ℕ, String, Bool, true, false, not, ◌&&◌, Option, none, some, ◌==◌, if◌then◌else◌}
use kunkka.Base.Map
use kunkka.Base.Map.{Map}
use kunkka.Sdk.{AppId, WorkerId, WorkerCapability, RegisterWorkerRequest, RegisterWorkerResponse}
use kunkka.Base.{List}

pub record RegisteredWorker : Type 0 where
  pub worker_id : WorkerId
  pub app_id : AppId
  pub capabilities : List WorkerCapability

pub record WorkerRegistry : Type 0 where
  pub workers : Map RegisteredWorker
  pub app_workers : Map WorkerId

abbrev pub new : WorkerRegistry
new = record { workers = Map.empty; app_workers = Map.empty }

-- `found == Some(&id)`
abbrev pub is_some_of : Option String → String → Bool
is_some_of none id = false
is_some_of (some found) id = found == id

-- The first `if let` of `register`: a worker that moves to another app gives up its old one.
abbrev pub leave_old_app : Option RegisteredWorker → WorkerId → AppId → Map WorkerId → Map WorkerId
leave_old_app none worker_id app_id app_workers = app_workers
leave_old_app (some existing) worker_id app_id app_workers =
    if not (existing.app_id == app_id) && is_some_of (Map.get existing.app_id app_workers) worker_id
    then Map.remove existing.app_id app_workers
    else app_workers

-- The second `if let`: the worker that served the app before is dropped.
abbrev pub drop_old_worker :
    Option WorkerId → WorkerId → Map RegisteredWorker → Map RegisteredWorker
drop_old_worker none worker_id workers = workers
drop_old_worker (some old_worker_id) worker_id workers =
    if not (old_worker_id == worker_id) then Map.remove old_worker_id workers else workers

unfoldable pub register :
    RegisterWorkerRequest → WorkerRegistry → RegisterWorkerResponse × WorkerRegistry
register request r =
    let worker_id = request.worker_id in
    let app_id = request.app_id in
    let app_workers = leave_old_app (Map.get worker_id r.workers) worker_id app_id r.app_workers in
    let workers = drop_old_worker (Map.get app_id app_workers) worker_id r.workers in
    let registered : RegisteredWorker = record {
      worker_id = worker_id;
      app_id = app_id;
      capabilities = request.capabilities;
    } in
    (
      record { worker_id = worker_id; accepted = true; message = none },
      record {
        workers = Map.insert worker_id registered workers;
        app_workers = Map.insert app_id worker_id app_workers;
      },
    )

remove_found :
    WorkerId → Option RegisteredWorker → WorkerRegistry → Option RegisteredWorker × WorkerRegistry
remove_found worker_id none r = (none, r)
remove_found worker_id (some registered) r =
    let workers = Map.remove worker_id r.workers in
    (
      some registered,
      (if is_some_of (Map.get registered.app_id r.app_workers) worker_id
          then record {
            workers = workers;
            app_workers = Map.remove registered.app_id r.app_workers;
          }
          else record { workers = workers; app_workers = r.app_workers }),
    )

unfoldable pub remove : WorkerId → WorkerRegistry → Option RegisteredWorker × WorkerRegistry
unfolding remove_found
remove worker_id r = remove_found worker_id (Map.get worker_id r.workers) r

remove_served : AppId → Option WorkerId → WorkerRegistry → Option RegisteredWorker × WorkerRegistry
remove_served app_id none r = (none, r)
remove_served app_id (some worker_id) r = (
  Map.get worker_id r.workers,
  record {
    workers = Map.remove worker_id r.workers;
    app_workers = Map.remove app_id r.app_workers;
  },
)

unfoldable pub remove_by_app_id : AppId → WorkerRegistry → Option RegisteredWorker × WorkerRegistry
unfolding remove_served
remove_by_app_id app_id r = remove_served app_id (Map.get app_id r.app_workers) r

abbrev pub get : WorkerId → WorkerRegistry → Option RegisteredWorker
get worker_id r = Map.get worker_id r.workers

unfoldable pub get_by_app_id : AppId → WorkerRegistry → Option RegisteredWorker
get_by_app_id app_id r = elim (Map.get app_id r.app_workers) [
  | none ↦ none
  | some worker_id ↦ Map.get worker_id r.workers
]

abbrev pub len : WorkerRegistry → ℕ
len r = Map.size r.workers
