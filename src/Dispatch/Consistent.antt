-- ===== src/Dispatch/Consistent.antt =====
-- The invariant of `WorkerManager`: its connections and its registry name the same workers.
use mathlib.Core.Option
use kunkka.Base.{
  ℕ, String, ◌≡◌, refl, sym, ap, ◌∙◌, inl, inr, false, Option, none, some, List, [], ◌∷◌, arith,
  ◌==◌, eq_iff, eq_refl, if◌then◌else◌, Option-cases,
}
use kunkka.Base.Map
use kunkka.Base.Map.{get-insert, get-remove}
use kunkka.Base.Fallible.{Result, ok, err}
use kunkka.Ipc.{Postcard, Transport, IpcError, Frame}
use kunkka.Sdk.{AppId, WorkerId, RegisterWorkerRequest, WorkerProtocolMessage}
use kunkka.CoreError.{CoreError}
use kunkka.Manifest.Loading.{AppRegistry}
use kunkka.Registry.{RegisteredWorker, register}
use kunkka.Registry.Bijection
use kunkka.Registry.Bijection.{
  app_of, worker_of, except, except_of_ne, new-IsValid, register-IsValid, worker_of-register,
}
use kunkka.Registry.Removal.{worker_of-remove_by_app_id, remove_by_app_id-IsValid}
use kunkka.Dispatch.{
  ActiveWorker, WorkerManager, with_app_registry, drop_active, forget, expired_apps, forget_all,
  reap_idle_workers, leave_previous, insert_active_worker, finish_registration, finish_read,
  read_registration, handle_registration_connection_with_expected_app,
}

module _ {t : Transport} {p : Postcard WorkerProtocolMessage} where
  abbrev served_by : Option (ActiveWorker t p) → Option WorkerId
  served_by = Option.map (λ worker. worker.worker_id)

  -- The registry is valid, and the worker that it names for an app is the one with a connection.
  pub record IsConsistent (m : WorkerManager t p) : Type 0 where
    pub valid : Bijection.IsValid m.registry
    pub agree : (a : AppId) → worker_of a m.registry ≡ served_by (Map.get a m.active_workers)

  -- A manager that has started no worker is in order.
  pub with_app_registry-IsConsistent :
      (app_registry : AppRegistry) (socket_path : String)
      → IsConsistent (with_app_registry t p app_registry socket_path)
  unfolding Map.get
  with_app_registry-IsConsistent app_registry socket_path = record {
    valid = new-IsValid;
    agree = λ a. refl;
  }

  get-drop_active :
      (a b : AppId) (m : WorkerManager t p)
      → Map.get b (drop_active t p a m).active_workers
        ≡ (if a == b then none else Map.get b m.active_workers)
  unfolding drop_active
  get-drop_active a b m = elim (Option-cases (Map.get a m.active_workers)) [
    | inl missing ↦ rw (missing, drop_active) (ground (arith, eq_iff a b))
    | inr (w, h) ↦ rw (h, drop_active) (get-remove a b m.active_workers)
  ]

  registry-drop_active :
      (a : AppId) (m : WorkerManager t p) → (drop_active t p a m).registry ≡ m.registry
  unfolding drop_active
  registry-drop_active a m = elim (Option-cases (Map.get a m.active_workers)) [
    | inl missing ↦ rw (missing, drop_active) refl
    | inr (w, h) ↦ rw (h, drop_active) refl
  ]

  pub forget-IsConsistent :
      (a : AppId) (m : WorkerManager t p) → IsConsistent m → IsConsistent (forget t p a m)
  forget-IsConsistent a m c = record {
    valid = rw (registry-drop_active a m) (remove_by_app_id-IsValid a m.registry c.valid);
    agree = λ b.
        rw
          (
            registry-drop_active a m,
            worker_of-remove_by_app_id a b m.registry,
            get-drop_active a b m,
          )
          (ground (arith, c.agree b));
  }

  forget_all-IsConsistent :
      (apps : List AppId) (m : WorkerManager t p)
      → IsConsistent m
      → IsConsistent (forget_all t p apps m)
  unfolding forget_all
  forget_all-IsConsistent [] m c = c
  forget_all-IsConsistent (a ∷ apps) m c =
      forget_all-IsConsistent apps (forget t p a m) (forget-IsConsistent a m c)

  -- Where the connections and the registry name the same workers, reaping idle workers keeps them in
  -- step.
  pub reap_idle_workers-IsConsistent :
      (now : ℕ) (m : WorkerManager t p)
      → IsConsistent m
      → IsConsistent (reap_idle_workers t p now m)
  unfolding reap_idle_workers
  reap_idle_workers-IsConsistent now m c =
      forget_all-IsConsistent (expired_apps t p now m.active_workers) m c

  registry-leave_previous :
      (o : Option RegisteredWorker) (a : AppId) (m : WorkerManager t p)
      → (leave_previous t p o a m).registry ≡ m.registry
  registry-leave_previous none a m = refl
  registry-leave_previous (some x) a m = ground (arith, registry-drop_active x.app_id m)

  -- What is left for another app once the worker has left the app that it served.
  agree-leave_previous :
      (o : Option RegisteredWorker) (w a b : String) (m : WorkerManager t p)
      → IsConsistent m
      → Map.get w m.registry.workers ≡ o
      → (a == b) ≡ false
      → except w (worker_of b m.registry)
        ≡ served_by (Map.get b (leave_previous t p o a m).active_workers)
  agree-leave_previous none w a b m c h other =
      let elsewhere = c.valid.served b w in
      ground (arith, elsewhere, c.agree b, except_of_ne w (worker_of b m.registry))
  agree-leave_previous (some x) w a b m c h other =
      let here = c.valid.serves w x.app_id (ap (Option.map (λ y. y.app_id)) h) in
      ground (
        arith,
        here,
        c.valid.served b w,
        c.agree b,
        eq_iff x.app_id a,
        eq_iff x.app_id b,
        eq_iff a b,
        eq_refl w,
        get-drop_active x.app_id b m,
        except_of_ne w (worker_of b m.registry),
      )

  -- Which worker is connected for an app after one has been inserted.
  served_by-insert :
      (a b w : String) (worker : ActiveWorker t p) (m : WorkerManager t p)
      → worker.worker_id ≡ w
      → served_by (Map.get b (Map.insert a worker (drop_active t p a m).active_workers))
        ≡ (if a == b then some w else served_by (Map.get b m.active_workers))
  served_by-insert a b w worker m h =
      ground
        (arith, get-insert a b worker (drop_active t p a m).active_workers, get-drop_active a b m)

  -- Where the connections and the registry name the same workers, a worker that registers, for its first
  -- app or for another, keeps them in step.
  insert_active_worker-IsConsistent :
      (request : RegisterWorkerRequest) (connection : t.Connection) (child : Option ℕ)
      → (idle_timeout_ms now : ℕ) (m : WorkerManager t p) → IsConsistent m
      → IsConsistent (insert_active_worker t p request connection child idle_timeout_ms now m)
  unfolding insert_active_worker
  insert_active_worker-IsConsistent request connection child idle_timeout_ms now m c =
      let w = request.worker_id in
      let a = request.app_id in
      let left = leave_previous t p (Map.get w m.registry.workers) a m in
      let same = registry-leave_previous (Map.get w m.registry.workers) a m in
      let registered = record left { registry = (register request left.registry).1 } in
      let untouched = registry-drop_active a registered in
      record {
        valid = rw (untouched, same) (register-IsValid request m.registry c.valid);
        agree = λ b.
            ap (worker_of b) untouched
            ∙ ap (λ r. worker_of b (register request r).1) same
            ∙ worker_of-register request m.registry c.valid b
            ∙ branches b
            ∙ sym (served_by-insert a b w _ registered refl);
      }
    where
      branches :
          (b : AppId)
          → (if request.app_id == b
              then some request.worker_id
              else except request.worker_id (worker_of b m.registry))
            ≡ (if request.app_id == b
                then some request.worker_id
                else served_by (
                    Map.get b
                      (leave_previous t p
                        (Map.get request.worker_id m.registry.workers)
                        request.app_id
                        m).active_workers))
      branches b = ground (
        arith,
        agree-leave_previous (Map.get request.worker_id m.registry.workers) request.worker_id
            request.app_id b m c refl,
      )

  pub killed-IsConsistent :
      (m : WorkerManager t p) (killed : List ℕ)
      → IsConsistent m
      → IsConsistent (record m { terminated = killed })
  killed-IsConsistent m killed c = record { valid = c.valid; agree = c.agree }

  finish_registration-IsConsistent :
      (request : RegisterWorkerRequest) (sent : Result IpcError (Unit {0}) × t.Connection)
      → (child : Option ℕ) (idle_timeout_ms now : ℕ) (m : WorkerManager t p) → IsConsistent m
      → IsConsistent (finish_registration t p request sent child idle_timeout_ms now m).1
  finish_registration-IsConsistent request (ok u, connection) child idle now m c =
      insert_active_worker-IsConsistent request connection child idle now m c
  finish_registration-IsConsistent request (err e, connection) child idle now m c =
      killed-IsConsistent m _ c

  registered-IsConsistent :
      (r : Result CoreError (RegisterWorkerRequest × Frame)) (connection : t.Connection)
      → (child : Option ℕ) (idle_timeout_ms now : ℕ) (m : WorkerManager t p) → IsConsistent m
      → IsConsistent (finish_read t p r connection child idle_timeout_ms now m).1
  registered-IsConsistent (err e) connection child idle now m c = killed-IsConsistent m _ c
  registered-IsConsistent (ok (request, accepted)) connection child idle now m c =
      finish_registration-IsConsistent request (t.send_frame accepted connection) child idle now m c

  pub handle_registration-IsConsistent :
      (frame : Frame) (connection : t.Connection) (child : Option ℕ) (idle_timeout_ms : ℕ)
      → (expected : Option AppId) (now : ℕ) (m : WorkerManager t p) → IsConsistent m
      → IsConsistent
          (handle_registration_connection_with_expected_app t p frame connection child
            idle_timeout_ms expected now m).1
  unfolding handle_registration_connection_with_expected_app
  handle_registration-IsConsistent frame connection child idle expected now m c =
      registered-IsConsistent (read_registration t p frame expected) connection child idle now m c
