-- ===== src/Base/Map/Sorted.antt =====
-- The key order of a `BTreeMap`, which every operation keeps.
use Prim.Native.String.{String}
use mathlib.Core.Path.{◌≡◌, refl}
use mathlib.Core.Bool.{Bool}
use mathlib.Core.Option.{none}
use mathlib.Core.List.{[], ◌∷◌}
use native.Mathlib.Omega.{arith}
use text.Mathlib.TextEquality.{eq_iff}
use kunkka.Base.Text.Order.{IsBefore, IsBefore-trans, IsBefore-ne, IsBefore-total}
use kunkka.Base.Map.{Map, keep, get, insert, remove, modify, map_values, retain_values}

module _ {ℓ} {V : Type ℓ} where
  -- Every key of the map comes after `k`.
  abbrev pub IsAbove : String → Map V → Type 0
  IsAbove k [] = Unit
  IsAbove k ((j, _) ∷ m) = IsBefore k j × IsAbove k m

  -- The keys rise along the list, so none stands twice.
  abbrev pub IsSorted : Map V → Type 0
  IsSorted [] = Unit
  IsSorted ((k, _) ∷ m) = IsAbove k m × IsSorted m

  IsAbove-trans : (i j : String) (m : Map V) → IsBefore i j → IsAbove j m → IsAbove i m
  IsAbove-trans i j [] h a = tt
  IsAbove-trans i j ((k, _) ∷ m) h (b, a) = (IsBefore-trans i j k h b, IsAbove-trans i j m h a)

  pub get-eq-none_of_IsAbove : (k : String) (m : Map V) → IsAbove k m → get k m ≡ none
  unfolding get
  get-eq-none_of_IsAbove k [] _ = refl
  get-eq-none_of_IsAbove k ((j, _) ∷ m) (b, a) =
      ground (arith, eq_iff j k, IsBefore-ne k j b, get-eq-none_of_IsAbove k m a)

  insert-IsAbove :
      (i k : String) (v : V) (m : Map V) → IsBefore i k → IsAbove i m → IsAbove i (insert k v m)
  unfolding insert
  insert-IsAbove i k v [] h _ = (h, tt)
  insert-IsAbove i k v ((j, w) ∷ m) h (b, a) = ground (arith, insert-IsAbove i k v m h a)

  pub insert-IsSorted : (k : String) (v : V) (m : Map V) → IsSorted m → IsSorted (insert k v m)
  unfolding insert
  insert-IsSorted k v [] _ = (tt, tt)
  insert-IsSorted k v ((j, w) ∷ m) (a, s) = ground (
    arith,
    eq_iff j k,
    IsBefore-total k j,
    IsAbove-trans k j m,
    insert-IsAbove j k v m,
    insert-IsSorted k v m s,
  )

  remove-IsAbove : (i k : String) (m : Map V) → IsAbove i m → IsAbove i (remove k m)
  unfolding remove
  remove-IsAbove i k [] _ = tt
  remove-IsAbove i k ((j, w) ∷ m) (b, a) = ground (arith, remove-IsAbove i k m a)

  pub remove-IsSorted : (k : String) (m : Map V) → IsSorted m → IsSorted (remove k m)
  unfolding remove
  remove-IsSorted k [] _ = tt
  remove-IsSorted k ((j, w) ∷ m) (a, s) =
      ground (arith, remove-IsSorted k m s, remove-IsAbove j k m a)

  modify-IsAbove : (i k : String) (f : V → V) (m : Map V) → IsAbove i m → IsAbove i (modify k f m)
  unfolding modify
  modify-IsAbove i k f [] _ = tt
  modify-IsAbove i k f ((j, w) ∷ m) (b, a) = ground (arith, modify-IsAbove i k f m a)

  pub modify-IsSorted : (k : String) (f : V → V) (m : Map V) → IsSorted m → IsSorted (modify k f m)
  unfolding modify
  modify-IsSorted k f [] _ = tt
  modify-IsSorted k f ((j, w) ∷ m) (a, s) =
      ground (arith, modify-IsSorted k f m s, modify-IsAbove j k f m a)

  map_values-IsAbove :
      (i : String) (f : V → V) (m : Map V) → IsAbove i m → IsAbove i (map_values f m)
  unfolding map_values
  map_values-IsAbove i f [] _ = tt
  map_values-IsAbove i f ((j, w) ∷ m) (b, a) = (b, map_values-IsAbove i f m a)

  pub map_values-IsSorted : (f : V → V) (m : Map V) → IsSorted m → IsSorted (map_values f m)
  unfolding map_values
  map_values-IsSorted f [] _ = tt
  map_values-IsSorted f ((j, w) ∷ m) (a, s) =
      (map_values-IsAbove j f m a, map_values-IsSorted f m s)

  retain_values-IsAbove :
      (i : String) (p : V → Bool) (m : Map V) → IsAbove i m → IsAbove i (retain_values p m)
  unfolding retain_values
  retain_values-IsAbove i p [] _ = tt
  retain_values-IsAbove i p ((j, w) ∷ m) (b, a) = ground (arith, retain_values-IsAbove i p m a)

  pub retain_values-IsSorted :
      (p : V → Bool) (m : Map V) → IsSorted m → IsSorted (retain_values p m)
  unfolding retain_values
  retain_values-IsSorted p [] _ = tt
  retain_values-IsSorted p ((j, w) ∷ m) (a, s) =
      ground (arith, retain_values-IsSorted p m s, retain_values-IsAbove j p m a)

  pub get-retain_values :
      (j : String) (p : V → Bool) (m : Map V)
      → IsSorted m
      → get j (retain_values p m) ≡ keep p (get j m)
  unfolding get retain_values
  get-retain_values j p [] _ = refl
  get-retain_values j p ((i, w) ∷ m) (a, s) =
      ground (arith, eq_iff i j, get-retain_values j p m s, get-eq-none_of_IsAbove i m a)
