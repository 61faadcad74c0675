-- ===== src/Dispatch/Answered.antt =====
-- `dispatch` keeps the invariant of `WorkerManager`.
use kunkka.Base.{ℕ, String, ◌≡◌, refl, inl, inr, Option, none, some, arith, eq_iff, Bool-cases}
use kunkka.Base.Map
use kunkka.Base.Map.{get-insert}
use kunkka.Base.Text.Trim.{is_empty_text}
use kunkka.Base.Fallible.{Result, ok, err}
use kunkka.Ipc.{Postcard, Transport, Frame, Payload}
use kunkka.Sdk.{AppId, WorkerProtocolMessage}
use kunkka.CoreError.{CoreError}
use kunkka.Dispatch.{ActiveWorker, WorkerManager, DispatchResult}
use kunkka.Dispatch.Consistent.{IsConsistent, forget-IsConsistent}
use kunkka.Dispatch.Send.{
  dispatch, dispatch_active, finish_dispatch, dispatch_frame, send_dispatch_frame,
}

module _ {t : Transport} {p : Postcard WorkerProtocolMessage} where
  finish_dispatch-IsConsistent :
      (app_id : AppId) (now : ℕ) (active : ActiveWorker t p)
      → (sent : Result CoreError DispatchResult × t.Connection) (m : WorkerManager t p)
      → Map.get app_id m.active_workers ≡ some active
      → IsConsistent m
      → IsConsistent (finish_dispatch t p app_id now active sent m).1
  unfolding finish_dispatch
  finish_dispatch-IsConsistent app_id now active (err e, connection) m found c =
      forget-IsConsistent app_id m c
  finish_dispatch-IsConsistent app_id now active (ok result, connection) m found c = record {
    valid = c.valid;
    agree = λ b. ground (
      arith,
      c.agree b,
      get-insert app_id b (record active { connection = connection; last_used_at = now })
          m.active_workers,
      eq_iff app_id b,
    );
  }

  dispatch_active-IsConsistent :
      (found : Option (ActiveWorker t p)) (app_id : AppId) (method : String) (payload : Payload)
      → (request_id now : ℕ) (m : WorkerManager t p) → Map.get app_id m.active_workers ≡ found
      → IsConsistent m
      → IsConsistent (dispatch_active t p found app_id method payload request_id now m).1
  unfolding dispatch_active
  dispatch_active-IsConsistent none app_id method payload request_id now m h c = c
  dispatch_active-IsConsistent (some active) app_id method payload request_id now m h c =
      by_frame (dispatch_frame t p app_id method payload request_id active.worker_id) refl
    where
      by_frame :
          (f : Result CoreError Frame)
          → dispatch_frame t p app_id method payload request_id active.worker_id ≡ f
          → IsConsistent
              (dispatch_active t p (some active) app_id method payload request_id now m).1
      by_frame (err e) g = rw (g, dispatch_active) c
      by_frame (ok frame) g =
          rw (g, dispatch_active)
            (finish_dispatch-IsConsistent app_id now active
              (send_dispatch_frame t p active.connection frame request_id) m h c)

  pub dispatch-IsConsistent :
      (app_id : AppId) (method : String) (payload : Payload) (now : ℕ) (m : WorkerManager t p)
      → IsConsistent m
      → IsConsistent (dispatch t p app_id method payload now m).1
  unfolding dispatch
  dispatch-IsConsistent app_id method payload now m c = elim (Bool-cases (is_empty_text method)) [
    | inl none_given ↦ rw (none_given, dispatch) c
    | inr given ↦
        rw (given, dispatch)
          (dispatch_active-IsConsistent (Map.get app_id m.active_workers) app_id method payload
            m.next_request_id now _ refl (record { valid = c.valid; agree = c.agree }))
  ]
