-- ===== src/Base/Lists.antt =====
-- Lists under native numbers, and the tests `any` and `all` of Rust's iterators.
use Prim.Native.Nat.{ℕ, zero, suc, ◌+◌}
use Prim.Native.String.{String}
use mathlib.Core.Path.{◌≡◌, sym}
use mathlib.Core.Logic.{◌↔◌, inl, inr}
use mathlib.Core.List.{Memᴰ}
use text.Mathlib.TextEquality.{eq_iff}
use kunkka.Base.Tests.{Bool-cases}
use mathlib.Core.Bool.{Bool, true, false, ◌&&◌, ◌||◌}
use mathlib.Core.List.{List, [], ◌∷◌, ◌++◌}
use mathlib.Core.Option.{Option, none, some}
use native.Mathlib.Omega.{arith}
use text.Mathlib.Text.{◌==◌}

module _ {ℓ} {A : Type ℓ} where
  abbrev pub length : List A → ℕ
  length [] = 0
  length (x ∷ xs) = suc (length xs)

  abbrev pub get_elem? : List A → ℕ → Option A
  get_elem? [] i = none
  get_elem? (x ∷ xs) zero = some x
  get_elem? (x ∷ xs) (suc i) = get_elem? xs i

  abbrev pub any : (A → Bool) → List A → Bool
  any p [] = false
  any p (x ∷ xs) = p x || any p xs

  abbrev pub all : (A → Bool) → List A → Bool
  all p [] = true
  all p (x ∷ xs) = p x && all p xs

  abbrev pub is_empty : List A → Bool
  is_empty [] = true
  is_empty (x ∷ xs) = false

  -- Rust's `filter`, over a Boolean test.
  abbrev pub retain : (A → Bool) → List A → List A
  retain p [] = []
  retain p (x ∷ xs) = elim (p x) [ true ↦ x ∷ retain p xs | false ↦ retain p xs ]

  pub length-append : (xs ys : List A) → length (xs ++ ys) ≡ length xs + length ys
  length-append [] ys = omega arith
  length-append (x ∷ xs) ys = omega (arith, length-append xs ys)

module _ {ℓ κ} {A : Type ℓ} (P : A → Type κ) where
  abbrev pub All : List A → Type κ
  All [] = Unit
  All (x ∷ xs) = P x × All xs

  pub All-append : (xs ys : List A) → All xs → All ys → All (xs ++ ys)
  All-append [] ys _ k = k
  All-append (x ∷ xs) ys (p, h) k = (p, All-append xs ys h k)

-- `list.iter().any(|s| s == t)` on texts.
abbrev pub contains : List String → String → Bool
contains xs t = any (λ s. s == t) xs

contains_sound : (xs : List String) (t : String) → contains xs t ≡ true → Memᴰ t xs
contains_sound [] t h = cc
contains_sound (x ∷ xs) t h = elim (Bool-cases (x == t)) [
  | inl hit ↦ Memᴰ.head (sym ((eq_iff x t).0 hit))
  | inr miss ↦ Memᴰ.tail (contains_sound xs t (ground arith))
]

contains_complete : (xs : List String) (t : String) → Memᴰ t xs → contains xs t ≡ true
contains_complete [] t m = elim m [ ]
contains_complete (x ∷ xs) t (Memᴰ.head e) = ground (arith, eq_iff x t)
contains_complete (x ∷ xs) t (Memᴰ.tail m) = ground (arith, contains_complete xs t m)

pub contains_iff : (xs : List String) (t : String) → (contains xs t ≡ true) ↔ Memᴰ t xs
contains_iff xs t = (contains_sound xs t, contains_complete xs t)
