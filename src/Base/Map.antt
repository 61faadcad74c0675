-- ===== src/Base/Map.antt =====
-- `BTreeMap<String, V>` as an association list in key order. The laws here hold of any list.
pub mod Sorted
use Prim.Native.String.{String, compare}
use mathlib.Core.Path.{◌≡◌, refl}
use mathlib.Core.Bool.{Bool}
use mathlib.Core.Option
use mathlib.Core.Option.{Option, none, some}
use mathlib.Core.List.{List, [], ◌∷◌}
use native.Mathlib.Omega.{arith}
use text.Mathlib.Text.{◌==◌, is_lt}
use text.Mathlib.TextEquality.{eq_iff}
use Prim.Native.Nat.{ℕ, suc}
use kunkka.Base.Tests.{if◌then◌else◌}

abbrev pub Map {ℓ} : Type ℓ → Type ℓ
Map V = List (String × V)

-- `values().filter(…)` and `retain` keep what the test accepts.
abbrev pub keep {ℓ} : {V : Type ℓ} → (V → Bool) → Option V → Option V
keep p none = none
keep p (some v) = if p v then some v else none

module _ {ℓ} {V : Type ℓ} where
  abbrev pub empty : Map V
  empty = []

  unfoldable pub get : String → Map V → Option V
  get k [] = none
  get k ((j, v) ∷ m) = if j == k then some v else get k m

  unfoldable pub insert : String → V → Map V → Map V
  insert k v [] = (k, v) ∷ []
  insert k v ((j, w) ∷ m) =
      let rest = insert k v m in
      if j == k
      then (k, v) ∷ m
      else (if is_lt (compare k j) then (k, v) ∷ (j, w) ∷ m else (j, w) ∷ rest)

  unfoldable pub remove : String → Map V → Map V
  remove k [] = []
  remove k ((j, w) ∷ m) = let rest = remove k m in if j == k then rest else (j, w) ∷ rest

  -- `if let Some(v) = m.get_mut(k) { *v = f(v) }`
  unfoldable pub modify : String → (V → V) → Map V → Map V
  modify k f [] = []
  modify k f ((j, w) ∷ m) = if j == k then (j, f w) ∷ m else (j, w) ∷ modify k f m

  -- `for v in m.values_mut() { *v = f(v) }`
  unfoldable pub map_values : (V → V) → Map V → Map V
  map_values f [] = []
  map_values f ((j, w) ∷ m) = (j, f w) ∷ map_values f m

  unfoldable pub retain_values : (V → Bool) → Map V → Map V
  retain_values p [] = []
  retain_values p ((j, w) ∷ m) = let rest = retain_values p m in if p w then (j, w) ∷ rest else rest

  unfoldable pub values : Map V → List V
  values [] = []
  values ((j, w) ∷ m) = w ∷ values m

  unfoldable pub size : Map V → ℕ
  size [] = 0
  size (e ∷ m) = suc (size m)

  pub get-insert :
      (k j : String) (v : V) (m : Map V)
      → get j (insert k v m) ≡ (if k == j then some v else get j m)
  unfolding get insert
  get-insert k j v [] = refl
  get-insert k j v ((i, w) ∷ m) =
      ground (arith, eq_iff k j, eq_iff i k, eq_iff i j, get-insert k j v m)

  pub get-remove :
      (k j : String) (m : Map V) → get j (remove k m) ≡ (if k == j then none else get j m)
  unfolding get remove
  get-remove k j [] = ground arith
  get-remove k j ((i, w) ∷ m) = ground (arith, eq_iff k j, eq_iff i k, eq_iff i j, get-remove k j m)

  pub get-modify :
      (k j : String) (f : V → V) (m : Map V)
      → get j (modify k f m) ≡ (if k == j then Option.map f (get j m) else get j m)
  unfolding get modify
  get-modify k j f [] = ground arith
  get-modify k j f ((i, w) ∷ m) =
      ground (arith, eq_iff k j, eq_iff i k, eq_iff i j, get-modify k j f m)

  pub get-map_values :
      (j : String) (f : V → V) (m : Map V) → get j (map_values f m) ≡ Option.map f (get j m)
  unfolding get map_values
  get-map_values j f [] = refl
  get-map_values j f ((i, w) ∷ m) = ground (arith, eq_iff i j, get-map_values j f m)
