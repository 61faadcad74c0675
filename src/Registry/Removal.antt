-- ===== src/Registry/Removal.antt =====
-- What `remove`, `remove_by_app_id` and `get_by_app_id` of crates/kunkka-core/src/worker_registry.rs do
-- to the two maps.
use mathlib.Core.Option
use kunkka.Base.{
  ◌≡◌, ap, none, some, arith, ◌==◌, eq_iff, eq_refl, if◌then◌else◌, Option-cases, inl, inr,
}
use kunkka.Base.Map
use kunkka.Base.Map.{Map, get-remove}
use kunkka.Sdk.{AppId, WorkerId}
use kunkka.Registry.{WorkerRegistry, remove, remove_found, remove_by_app_id, remove_served}
-- The app that a worker is registered for.
use kunkka.Registry.Bijection.{IsValid, worker_of}

pub worker_of-remove_by_app_id :
    (a b : AppId) (r : WorkerRegistry)
    → worker_of b (remove_by_app_id a r).1 ≡ (if a == b then none else worker_of b r)
unfolding remove_by_app_id
worker_of-remove_by_app_id a b r = elim (Option-cases (worker_of a r)) [
  | inl unserved ↦ rw (unserved, remove_served) (ground (arith, eq_iff a b))
  | inr (w, h) ↦ rw (h, remove_served) (get-remove a b r.app_workers)
]

removed-IsValid :
    (r : WorkerRegistry) (a : AppId) (w : WorkerId)
    → IsValid r
    → worker_of a r ≡ some w
    → IsValid
        (record { workers = Map.remove w r.workers; app_workers = Map.remove a r.app_workers })
removed-IsValid r a w v h = record {
  served = λ b u k. ground (
    arith,
    get-remove w u r.workers,
    get-remove a b r.app_workers,
    eq_iff a b,
    eq_iff w u,
    v.served b u,
    v.served a w,
  );
  serves = λ u b k. ground (
    arith,
    get-remove w u r.workers,
    get-remove a b r.app_workers,
    eq_iff a b,
    eq_iff w u,
    v.serves u b,
    v.serves w a,
  );
  own = λ u x k. ground (arith, get-remove w u r.workers, v.own u x);
}

pub remove_by_app_id-IsValid :
    (a : AppId) (r : WorkerRegistry) → IsValid r → IsValid (remove_by_app_id a r).1
unfolding remove_by_app_id
remove_by_app_id-IsValid a r v = elim (Option-cases (worker_of a r)) [
  | inl unserved ↦ rw (unserved, remove_served) v
  | inr (w, h) ↦ rw (h, remove_served) (removed-IsValid r a w v h)
]

-- Where the two maps are inverse to one another, removing a worker, known or not, keeps
-- them so.
pub remove-IsValid : (w : WorkerId) (r : WorkerRegistry) → IsValid r → IsValid (remove w r).1
unfolding remove
remove-IsValid w r v = elim (Option-cases (Map.get w r.workers)) [
  | inl missing ↦ rw (missing, remove_found) v
  | inr (x, h) ↦
      let serving = v.serves w x.app_id (ap (Option.map (λ y. y.app_id)) h) in
      rw (h, remove_found) (rw (serving, eq_refl w) (removed-IsValid r x.app_id w v serving))
]
