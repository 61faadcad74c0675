-- ===== src/Base/Text/Order.antt =====
-- The order of `BTreeMap<String, _>`'s keys is strict and total.
use Prim.Native.Nat.{ℕ, Ordering, compare as compare_ℕ}
use Prim.Native.Char.{code}
use Prim.Native.String.{String, [], ◌∷◌, compare, then}
use Prim.Native.String.compare
use mathlib.Core.Path.{◌≡◌}
use mathlib.Core.Logic.{◌≢◌}
use native.Mathlib.Omega.{arith}
use text.Mathlib.TextEquality.{path_by_compare}
use text.Mathlib.TextPositions.{compare_refl}

abbrev pub IsBefore : String → String → Type 0
IsBefore s t = compare s t ≡ Ordering.lt

then_trans :
    (a b c : ℕ) (o p q : Ordering)
    → (o ≡ Ordering.lt → p ≡ Ordering.lt → q ≡ Ordering.lt)
    → then (compare_ℕ a b) o ≡ Ordering.lt
    → then (compare_ℕ b c) p ≡ Ordering.lt
    → then (compare_ℕ a c) q ≡ Ordering.lt
then_trans a b c o p q ih h k = ground arith

pub IsBefore-trans : (s t u : String) → IsBefore s t → IsBefore t u → IsBefore s u
IsBefore-trans [] [] u h k = ground (arith, compare.nil-nil)
IsBefore-trans [] (d ∷ t) [] h k = ground (arith, compare.cons-nil d t)
IsBefore-trans [] (d ∷ t) (e ∷ u) h k = compare.nil-cons e u
IsBefore-trans (c ∷ s) [] u h k = ground (arith, compare.cons-nil c s)
IsBefore-trans (c ∷ s) (d ∷ t) [] h k = ground (arith, compare.cons-nil d t)
IsBefore-trans (c ∷ s) (d ∷ t) (e ∷ u) h k = rw (compare.cons-cons c e s u) (
    then_trans (code c) (code d) (code e) (compare s t) (compare t u) (compare s u)
      (IsBefore-trans s t u) (rw (compare.cons-cons c d s t) at h)
      (rw (compare.cons-cons d e t u) at k))

pub IsBefore-ne : (s t : String) → IsBefore s t → s ≢ t
IsBefore-ne s t h e = ground (arith, compare_refl s)

then_flip :
    (a b : ℕ) (o p : Ordering)
    → (o ≡ Ordering.gt → p ≡ Ordering.lt)
    → then (compare_ℕ a b) o ≡ Ordering.gt
    → then (compare_ℕ b a) p ≡ Ordering.lt
then_flip a b o p ih h = ground arith

flip : (s t : String) → compare s t ≡ Ordering.gt → IsBefore t s
flip [] [] h = ground (arith, compare.nil-nil)
flip [] (d ∷ t) h = ground (arith, compare.nil-cons d t)
flip (c ∷ s) [] h = compare.nil-cons c s
flip (c ∷ s) (d ∷ t) h = rw (compare.cons-cons d c t s) (
    then_flip (code c) (code d) (compare s t) (compare t s) (flip s t)
      (rw (compare.cons-cons c d s t) at h))

pub IsBefore-total : (s t : String) → s ≢ t → compare s t ≢ Ordering.lt → IsBefore t s
IsBefore-total s t ne nlt = flip s t (ground (arith, path_by_compare s t))
