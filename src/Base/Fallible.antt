-- ===== src/Base/Fallible.antt =====
-- Rust's `Result<T, E>`, with `?` as bind.
use mathlib.Core.Path.{◌≡◌, refl}
use mathlib.Core.Logic.{◌⊎◌, inl, inr}
use mathlib.Core.Bool.{Bool, true, false}
use mathlib.Core.Option.{Option, none, some}

pub data Result (E : Type 0) (A : Type 0) : Type 0 where
  ok : A → Result E A
  err : E → Result E A

module _ {E : Type 0} where
  abbrev pub ok_or : {A : Type 0} → Option A → E → Result E A
  ok_or none e = err e
  ok_or (some a) e = ok a

  -- An early `return Err(e)` under a condition.
  abbrev pub fail_if : Bool → E → Result E (Unit {0})
  fail_if true e = err e
  fail_if false e = ok tt

  infixl 5 ◌>>=◌ ◌>>◌
  -- `let a = m?;` before `next`.
  abbrev pub ◌>>=◌ : {A B : Type 0} → Result E A → (A → Result E B) → Result E B
  err failure >>= next = err failure
  ok value >>= next = next value

  -- `m?;` before the rest.
  abbrev pub ◌>>◌ : {B : Type 0} → Result E (Unit {0}) → Result E B → Result E B
  check >> rest = check >>= λ _. rest

  -- A sequence that succeeds has a first step that did, and so did what came after it.
  pub >>=-eq-ok :
      {A B : Type 0} (step : Result E A) (next : A → Result E B) {last : B}
      → (step >>= next) ≡ ok last
      → (value : A) × (step ≡ ok value) × (next value ≡ ok last)
  >>=-eq-ok (err failure) next h = cc
  >>=-eq-ok (ok value) next h = (value, refl, h)

abbrev pub map_err : {E F A : Type 0} → (E → F) → Result E A → Result F A
map_err f (ok a) = ok a
map_err f (err e) = err (f e)

abbrev pub is_ok : {E A : Type 0} → Result E A → Bool
is_ok (ok a) = true
is_ok (err e) = false

pub map_err-eq-ok :
    {E F A : Type 0} (f : E → F) (m : Result E A) {a : A} → map_err f m ≡ ok a → m ≡ ok a
map_err-eq-ok f (ok b) h = cc
map_err-eq-ok f (err e) h = cc

pub Result-cases :
    {E A : Type 0} (r : Result E A) → ((e : E) × (r ≡ err e)) ⊎ ((a : A) × (r ≡ ok a))
Result-cases (ok a) = inr (a, refl)
Result-cases (err e) = inl (e, refl)
