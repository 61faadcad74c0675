-- ===== src/Base/Text/Split.antt =====
-- `str::split` at a character, and `str::parse::<u32>`.
use Prim.Native.Nat.{ℕ, ◌+◌, ◌-◌, ◌*◌, ◌^◌}
use Prim.Native.Char.{Char, code}
use Prim.Native.String.{String, [] as nil, ◌∷◌ as cons}
use mathlib.Core.Path.{◌≡◌, refl}
use mathlib.Core.Logic.{inl, inr}
use mathlib.Core.Bool.{true, false, ◌&&◌}
use mathlib.Core.Option.{Option, none, some}
use mathlib.Core.List.{List, [], ◌∷◌}
use native.Mathlib.Omega.{arith}
use kunkka.Base.Tests.{ltb, leb, nat_eq, if◌then◌else◌, Bool-cases}
use kunkka.Base.Lists.{All}
use kunkka.Base.Text.Trim.{contains_char, is_empty_text}

-- The texts between the separators.
unfoldable pub split_on : ℕ → String → List String
split_on d nil = "" ∷ []
split_on d (cons c s) =
    let rest = split_on d s in
    elim (nat_eq (code c) d) [
      | true ↦ "" ∷ rest
      | false ↦ elim rest [ [] ↦ cons c nil ∷ [] | x ∷ xs ↦ cons c x ∷ xs ]
    ]

module _ (d : ℕ) where
  abbrev pub Without : String → Type 0
  Without s = contains_char d s ≡ false

  head-Without :
      (c : Char) (parts : List String)
      → nat_eq (code c) d ≡ false
      → All Without parts
      → All Without (elim parts [ [] ↦ cons c nil ∷ [] | x ∷ xs ↦ cons c x ∷ xs ])
  unfolding contains_char
  head-Without c [] other h = (ground (arith, other), tt)
  head-Without c (x ∷ xs) other (h, hs) = (ground (arith, other, h), hs)

  -- No part holds the separator.
  pub split_on-Without : (s : String) → All Without (split_on d s)
  unfolding split_on contains_char
  split_on-Without nil = (refl, tt)
  split_on-Without (cons c s) = elim (Bool-cases (nat_eq (code c) d)) [
    | inl separator ↦ rw (separator, split_on, All) (refl, split_on-Without s)
    | inr other ↦ rw (other, split_on) (head-Without c (split_on d s) other (split_on-Without s))
  ]

-- The digits behind what is read already, up to the width of `u32`.
unfoldable pub parse_digits : ℕ → String → Option ℕ
parse_digits acc nil = some acc
parse_digits acc (cons c s) = elim (leb b'0' (code c) && leb (code c) b'9') [
  | false ↦ none
  | true ↦ elim (ltb (acc * 10 + (code c - b'0')) (2 ^ 32)) [
    | false ↦ none
    | true ↦ parse_digits (acc * 10 + (code c - b'0')) s
  ]
]

abbrev without_plus : String → String
without_plus nil = nil
without_plus (cons c s) = if nat_eq (code c) b'+' then s else cons c s

-- `u32::from_str`, which takes a plus sign before the digits.
unfoldable pub parse_u32 : String → Option ℕ
unfolding parse_digits
parse_u32 s = if is_empty_text (without_plus s) then none else parse_digits 0 (without_plus s)

parse_u32_test : parse_u32 "+07" ≡ some 7
unfolding parse_u32
parse_u32_test = refl
