-- ===== src/Registry/Bijection.antt =====
-- The two maps of the registry are inverse to one another.
use mathlib.Core.Option
use kunkka.Base.{
  String, ◌≡◌, ◌≢◌, refl, sym, ◌∙◌, false, Option, none, some, arith, ◌==◌, eq_iff, eq_refl,
  if◌then◌else◌,
}
use kunkka.Base.Map
use kunkka.Base.Map.{Map, get-insert, get-remove}
use kunkka.Sdk.{AppId, WorkerId, RegisterWorkerRequest}
use kunkka.Registry.{
  RegisteredWorker, WorkerRegistry, new, leave_old_app, drop_old_worker, register,
}

-- The app that a worker is registered for.
abbrev pub app_of : WorkerId → WorkerRegistry → Option AppId
app_of w r = Option.map (λ x. x.app_id) (Map.get w r.workers)

abbrev pub worker_of : AppId → WorkerRegistry → Option WorkerId
worker_of a r = Map.get a r.app_workers

-- Each app's worker is registered for that app, and each registered worker serves its app.
pub record IsValid (r : WorkerRegistry) : Type 0 where
  pub served : (a : AppId) (w : WorkerId) → worker_of a r ≡ some w → app_of w r ≡ some a
  pub serves : (w : WorkerId) (a : AppId) → app_of w r ≡ some a → worker_of a r ≡ some w
  pub own : (w : WorkerId) (x : RegisteredWorker) → Map.get w r.workers ≡ some x → x.worker_id ≡ w

pub new-IsValid : IsValid new
unfolding Map.get
new-IsValid = record { served = λ a w h. cc; serves = λ w a h. cc; own = λ w x h. cc }

-- The value under a key, forgotten where it is `t`.
abbrev pub except : String → Option String → Option String
except t none = none
except t (some s) = if s == t then none else some s

pub except_of_ne : (t : String) (o : Option String) → o ≢ some t → except t o ≡ o
except_of_ne t none h = refl
except_of_ne t (some s) h = ground (arith, eq_iff s t)

except_self : (t : String) → except t (some t) ≡ none
except_self t = ground (arith, eq_refl t)

get-leave_old_app :
    (r : WorkerRegistry) (o : Option RegisteredWorker) (w a b : String)
    → IsValid r
    → Map.get w r.workers ≡ o
    → (a == b) ≡ false
    → Map.get b (leave_old_app o w a r.app_workers) ≡ except w (worker_of b r)
get-leave_old_app r none w a b v at_w other =
    sym (except_of_ne w (worker_of b r) (λ e. ground (arith, v.served b w e)))
get-leave_old_app r (some x) w a b v at_w other = ground (
  arith,
  eq_iff x.app_id a,
  eq_iff x.app_id b,
  eq_iff a b,
  eq_refl w,
  get-remove x.app_id b r.app_workers,
  v.serves w x.app_id,
  v.served b w,
  except_of_ne w (worker_of b r),
  except_self w,
)

get_at-leave_old_app :
    (r : WorkerRegistry) (o : Option RegisteredWorker) (w a : String)
    → Map.get a (leave_old_app o w a r.app_workers) ≡ worker_of a r
get_at-leave_old_app r none w a = refl
get_at-leave_old_app r (some x) w a =
    ground (arith, eq_iff x.app_id a, get-remove x.app_id a r.app_workers)

app_of-drop_old_worker :
    (r : WorkerRegistry) (o : Option WorkerId) (w u a : String)
    → IsValid r
    → worker_of a r ≡ o
    → (w == u) ≡ false
    → Option.map (λ x. x.app_id) (Map.get u (drop_old_worker o w r.workers)) ≡ except a (app_of u r)
app_of-drop_old_worker r none w u a v at_a other =
    sym (except_of_ne a (app_of u r) (λ e. ground (arith, v.serves u a e)))
app_of-drop_old_worker r (some old) w u a v at_a other = ground (
  arith,
  eq_iff old w,
  eq_iff old u,
  eq_iff w u,
  get-remove old u r.workers,
  v.serves u a,
  v.served a old,
  except_of_ne a (app_of u r),
  except_self a,
)

-- One step of the argument, for both directions.
inverse_step :
    (a₀ w₀ a w : String) (oa ow : Option String)
    → (oa ≡ some w → ow ≡ some a)
    → (if a₀ == a then some w₀ else except w₀ oa) ≡ some w
    → (if w₀ == w then some a₀ else except a₀ ow) ≡ some a
inverse_step a₀ w₀ a w none ow back h = ground (arith, eq_iff a₀ a, eq_iff w₀ w)
inverse_step a₀ w₀ a w (some s) ow back h =
    ground (arith, eq_iff a₀ a, eq_iff w₀ w, eq_iff s w₀, eq_iff a a₀)

own-drop_old_worker :
    (o : Option WorkerId) (w u : WorkerId) (m : Map RegisteredWorker) (x : RegisteredWorker)
    → Map.get u (drop_old_worker o w m) ≡ some x
    → Map.get u m ≡ some x
own-drop_old_worker none w u m x h = h
own-drop_old_worker (some old) w u m x h = ground (arith, get-remove old u m)

module _ (request : RegisterWorkerRequest) (r : WorkerRegistry) (v : IsValid r) where
  -- Registering gives the app to the worker, and takes every other app from it.
  pub worker_of-register :
      (b : AppId)
      → worker_of b (register request r).1 ≡ (
          if request.app_id == b
          then some request.worker_id
          else except request.worker_id (worker_of b r))
  unfolding register
  worker_of-register b = ground (
    arith,
    get-insert request.app_id b request.worker_id (
        leave_old_app (Map.get request.worker_id r.workers) request.worker_id request.app_id
          r.app_workers),
    get-leave_old_app r (Map.get request.worker_id r.workers) request.worker_id request.app_id b v
        refl,
  )

  -- And gives the worker to the app, and takes every other worker from it.
  pub app_of-register :
      (u : WorkerId)
      → app_of u (register request r).1 ≡ (
          if request.worker_id == u
          then some request.app_id
          else except request.app_id (app_of u r))
  unfolding register
  app_of-register u =
      let left =
        leave_old_app (Map.get request.worker_id r.workers) request.worker_id request.app_id
          r.app_workers in
      let workers = drop_old_worker (Map.get request.app_id left) request.worker_id r.workers in
      rw (get-insert request.worker_id u _ workers) (
        ground (
          arith,
          app_of-drop_old_worker r (Map.get request.app_id left) request.worker_id u request.app_id
              v
              (sym (
                get_at-leave_old_app r (Map.get request.worker_id r.workers) request.worker_id
                  request.app_id)),
        ))

  own-register :
      (u : WorkerId) (x : RegisteredWorker)
      → Map.get u (register request r).1.workers ≡ some x
      → x.worker_id ≡ u
  unfolding register
  own-register u x h =
      let left =
        leave_old_app (Map.get request.worker_id r.workers) request.worker_id request.app_id
          r.app_workers in
      let workers = drop_old_worker (Map.get request.app_id left) request.worker_id r.workers in
      let inserted = rw (get-insert request.worker_id u _ workers) at h in
      ground (
        arith,
        inserted,
        eq_iff request.worker_id u,
        own-drop_old_worker (Map.get request.app_id left) request.worker_id u r.workers x,
        v.own u x,
      )

  -- Where the maps from workers to apps and from apps to workers are inverse to one another, a worker
  -- that registers, with any id and for any app, keeps them so.
  pub register-IsValid : IsValid (register request r).1
  register-IsValid = record {
    served = λ a w h.
        app_of-register w
        ∙ inverse_step request.app_id request.worker_id a w (worker_of a r) (app_of w r)
            (v.served a w) (sym (worker_of-register a) ∙ h);
    serves = λ w a h.
        worker_of-register a
        ∙ inverse_step request.worker_id request.app_id w a (app_of w r) (worker_of a r)
            (v.serves w a) (sym (app_of-register w) ∙ h);
    own = own-register;
  }
