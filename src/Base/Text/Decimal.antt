-- ===== src/Base/Text/Decimal.antt =====
-- `format!("{}", n)` for an unsigned integer.
use Prim.Native.Nat.{ℕ, zero, suc, ◌+◌, ◌-◌, ◌*◌, ◌/◌, ◌%◌, ◌<◌}
use Prim.Native.Char.{code}
use Prim.Native.String.{String, [], ◌∷◌, ◌++◌}
use Prim.Native.String.append
use mathlib.Core.Path.{◌≡◌, refl, ◌∙◌}
use mathlib.Core.Bool.{◌&&◌}
use mathlib.Core.Logic.{inl, inr}
use native.Mathlib.Omega.{arith}
use kunkka.Base.Tests.{ltb, leb, if◌then◌else◌, Bool-cases}

unfoldable pub digit : ℕ → String
digit zero = "0"
digit (suc zero) = "1"
digit (suc (suc zero)) = "2"
digit (suc (suc (suc zero))) = "3"
digit (suc (suc (suc (suc zero)))) = "4"
digit (suc (suc (suc (suc (suc zero))))) = "5"
digit (suc (suc (suc (suc (suc (suc zero)))))) = "6"
digit (suc (suc (suc (suc (suc (suc (suc zero))))))) = "7"
digit (suc (suc (suc (suc (suc (suc (suc (suc zero)))))))) = "8"
digit (suc (suc (suc (suc (suc (suc (suc (suc (suc d))))))))) = "9"

-- The fuel bounds the number of digits.
decimal_from : ℕ → ℕ → String
decimal_from zero n = ""
decimal_from (suc f) n =
    let front = decimal_from f (n / 10) in if ltb n 10 then digit n else front ++ digit (n % 10)

unfoldable pub decimal : ℕ → String
unfolding decimal_from digit
decimal n = decimal_from (suc n) n

-- The number that the digits of a text spell, other characters passed over.
abbrev pub read_digit : ℕ → ℕ → ℕ
read_digit acc c = if leb 48 c && leb c 57 then acc * 10 + (c - 48) else acc

unfoldable pub digits_value : ℕ → String → ℕ
digits_value acc [] = acc
digits_value acc (c ∷ s) = digits_value (read_digit acc (code c)) s

pub digits_value-append :
    (acc : ℕ) (s t : String) → digits_value acc (s ++ t) ≡ digits_value (digits_value acc s) t
unfolding digits_value
digits_value-append acc [] t = rw (append.nil t)
digits_value-append acc (c ∷ s) t =
    rw (append.cons c s t) (digits_value-append (read_digit acc (code c)) s t)

digits_value-digit : (acc d : ℕ) → d < 10 → digits_value acc (digit d) ≡ acc * 10 + d
unfolding digits_value digit
digits_value-digit acc zero h = omega arith
digits_value-digit acc (suc zero) h = omega arith
digits_value-digit acc (suc (suc zero)) h = omega arith
digits_value-digit acc (suc (suc (suc zero))) h = omega arith
digits_value-digit acc (suc (suc (suc (suc zero)))) h = omega arith
digits_value-digit acc (suc (suc (suc (suc (suc zero))))) h = omega arith
digits_value-digit acc (suc (suc (suc (suc (suc (suc zero)))))) h = omega arith
digits_value-digit acc (suc (suc (suc (suc (suc (suc (suc zero))))))) h = omega arith
digits_value-digit acc (suc (suc (suc (suc (suc (suc (suc (suc zero)))))))) h = omega arith
digits_value-digit acc (suc (suc (suc (suc (suc (suc (suc (suc (suc d))))))))) h = omega arith

digits_value-decimal_from : (f n : ℕ) → n < f → digits_value 0 (decimal_from f n) ≡ n
unfolding decimal_from
digits_value-decimal_from zero n h = elim h [ ]
digits_value-decimal_from (suc f) n h = elim (Bool-cases (ltb n 10)) [
  | inl small ↦ rw small (digits_value-digit 0 n (ground arith) ∙ omega arith)
  | inr big ↦
      rw (big, digits_value-append 0 (decimal_from f (n / 10)) (digit (n % 10)))
        (rw (digits_value-decimal_from f (n / 10) (ground arith))
          (digits_value-digit (n / 10) (n % 10) (omega arith) ∙ omega arith))
]

-- Printing loses nothing.
pub digits_value-decimal : (n : ℕ) → digits_value 0 (decimal n) ≡ n
unfolding decimal
digits_value-decimal n = digits_value-decimal_from (suc n) n (omega arith)

decimal_test : decimal 1204 ≡ "1204"
unfolding decimal
decimal_test = refl
