-- ===== src/Dispatch/Started.antt =====
-- Starting a worker keeps the invariant of `WorkerManager`, and so does a dispatch that may start one.
use kunkka.Base.{ℕ, String, ◌≡◌, refl, inl, inr, Option, none, some, List, Option-cases}
use kunkka.Base.Map
use kunkka.Base.Fallible.{Result, ok, err}
use kunkka.Ipc.{Postcard, Transport, Frame, Payload}
use kunkka.Sdk.{AppId, WorkerProtocolMessage}
use kunkka.CoreError.{CoreError}
use kunkka.Manifest.{AppManifest}
use kunkka.Manifest.Loading
use kunkka.Dispatch.{WorkerManager, Os}
use kunkka.Dispatch.Consistent.{IsConsistent, handle_registration-IsConsistent, killed-IsConsistent}
use kunkka.Dispatch.Answered.{dispatch-IsConsistent}
use kunkka.Dispatch.Send.{
  Arrival, Started, settle_registration, await_registration, start_manifest,
  start_and_wait_for_registration, dispatch_started, dispatch_with_start,
}

module _ {t : Transport} {p : Postcard WorkerProtocolMessage} where
  settle_registration-IsConsistent :
      (r : Result CoreError (Option (Frame × t.Connection))) (manifest : AppManifest)
      (app_id : AppId)
      → (child now : ℕ) (m : WorkerManager t p) → IsConsistent m
      → IsConsistent (settle_registration t p r manifest app_id child now m).1
  unfolding settle_registration
  settle_registration-IsConsistent (ok (some (frame, connection))) manifest app_id child now m c =
      handle_registration-IsConsistent frame connection (some child) manifest.idle_timeout_ms
        (some app_id) now m c
  settle_registration-IsConsistent (ok none) manifest app_id child now m c =
      killed-IsConsistent m _ c
  settle_registration-IsConsistent (err e) manifest app_id child now m c = killed-IsConsistent m _ c

  start_manifest-IsConsistent :
      (os : Os) (manifest : AppManifest) (app_id : AppId) (arrivals : List (Arrival t p)) (now : ℕ)
      → (m : WorkerManager t p) (spawned : Result String ℕ)
      → os.spawn manifest m.socket_path ≡ spawned
      → IsConsistent m
      → IsConsistent (start_manifest t p os manifest app_id arrivals now m).1
  unfolding start_manifest
  start_manifest-IsConsistent os manifest app_id arrivals now m (err e) h c =
      rw (h, start_manifest) c
  start_manifest-IsConsistent os manifest app_id arrivals now m (ok child) h c =
      rw (h, start_manifest)
        (settle_registration-IsConsistent (await_registration t p app_id arrivals) manifest app_id
          child now m c)

  start-IsConsistent :
      (os : Os) (app_id : AppId) (arrivals : List (Arrival t p)) (now : ℕ) (m : WorkerManager t p)
      → IsConsistent m
      → IsConsistent (start_and_wait_for_registration t p os app_id arrivals now m).1
  unfolding start_and_wait_for_registration
  start-IsConsistent os app_id arrivals now m c =
      elim (Option-cases (Loading.get m.app_registry app_id)) [
        | inl missing ↦ rw (missing, start_and_wait_for_registration) c
        | inr (manifest, found) ↦
            rw (found, start_and_wait_for_registration)
              (start_manifest-IsConsistent os manifest app_id arrivals now m _ refl c)
      ]

  dispatch_started-IsConsistent :
      (s : Started t p) (app_id : AppId) (method : String) (payload : Payload) (now : ℕ)
      → IsConsistent s.1
      → IsConsistent (dispatch_started t p s app_id method payload now).1
  unfolding dispatch_started
  dispatch_started-IsConsistent (err e, m) app_id method payload now c = c
  dispatch_started-IsConsistent (ok u, m) app_id method payload now c =
      dispatch-IsConsistent app_id method payload now m c

  -- Where the connections and the registry name the same workers, a dispatch keeps them in step, whatever the worker, the sockets and
  -- the operating system do: whether a worker is started, fails to start, answers, or breaks off.
  pub dispatch_with_start-IsConsistent :
      (os : Os) (arrivals : List (Arrival t p)) (app_id : AppId) (method : String)
      (payload : Payload)
      → (now : ℕ) (m : WorkerManager t p) → IsConsistent m
      → IsConsistent (dispatch_with_start t p os arrivals app_id method payload now m).1
  unfolding dispatch_with_start
  dispatch_with_start-IsConsistent os arrivals app_id method payload now m c =
      elim (Option-cases (Map.get app_id m.active_workers)) [
        | inl missing ↦
            rw (missing, dispatch_with_start)
              (dispatch_started-IsConsistent _ app_id method payload now
                (start-IsConsistent os app_id arrivals now m c))
        | inr (active, found) ↦
            rw (found, dispatch_with_start) (dispatch-IsConsistent app_id method payload now m c)
      ]
