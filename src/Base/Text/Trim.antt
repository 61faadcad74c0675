-- ===== src/Base/Text/Trim.antt =====
-- `str::trim`, `char::is_whitespace`, and the quoting of `{:?}`.
use Prim.Native.Nat.{ℕ}
use Prim.Native.Char.{Char, code}
use Prim.Native.String.{String, [], ◌∷◌, ◌++◌}
use mathlib.Core.Path.{◌≡◌, refl}
use mathlib.Core.Bool.{Bool, true, false, ◌&&◌, ◌||◌}
use text.Mathlib.Text.{starts_with}
use kunkka.Base.Tests.{leb, nat_eq, if◌then◌else◌}

-- The White_Space property of Unicode.
unfoldable pub is_whitespace : ℕ → Bool
is_whitespace c =
    (leb 9 c && leb c 13)
    || nat_eq c 32
    || nat_eq c 0x85
    || nat_eq c 0xa0
    || nat_eq c 0x1680
    || (leb 0x2000 c && leb c 0x200a)
    || nat_eq c 0x2028
    || nat_eq c 0x2029
    || nat_eq c 0x202f
    || nat_eq c 0x205f
    || nat_eq c 0x3000

abbrev pub is_empty_text : String → Bool
is_empty_text [] = true
is_empty_text (c ∷ s) = false

unfoldable pub trim_start : String → String
trim_start [] = []
trim_start (c ∷ s) = if is_whitespace (code c) then trim_start s else c ∷ s

unfoldable pub trim_end : String → String
trim_end [] = []
trim_end (c ∷ s) =
    let rest = trim_end s in if is_empty_text rest && is_whitespace (code c) then "" else c ∷ rest

unfoldable pub trim : String → String
unfolding trim_start trim_end is_whitespace
trim s = trim_end (trim_start s)

unfoldable pub contains_char : ℕ → String → Bool
contains_char d [] = false
contains_char d (c ∷ s) = nat_eq (code c) d || contains_char d s

unfoldable pub starts_with_char : ℕ → String → Bool
starts_with_char d [] = false
starts_with_char d (c ∷ s) = nat_eq (code c) d

-- `str::contains` of a text.
unfoldable pub contains_text : String → String → Bool
contains_text part [] = starts_with [] part
contains_text part (c ∷ s) = starts_with (c ∷ s) part || contains_text part s

-- The escapes of `{:?}` that a printable text meets; `\u{…}` is not modelled.
escape_char : Char → String
escape_char c =
    if nat_eq (code c) b'"'
    then "\\\""
    else if nat_eq (code c) 92
    then "\\\\"
    else if nat_eq (code c) 10
    then "\\n"
    else if nat_eq (code c) 13
    then "\\r"
    else if nat_eq (code c) 9
    then "\\t"
    else c ∷ []

escape : String → String
escape [] = []
escape (c ∷ s) = escape_char c ++ escape s

unfoldable pub debug : String → String
unfolding escape escape_char
debug s = "\"" ++ escape s ++ "\""

contains_text_test : contains_text "or" "a word" ≡ true
unfolding contains_text
contains_text_test = refl

trim_test : trim " \t two words \n" ≡ "two words"
unfolding trim
trim_test = refl

debug_test : debug "a\"b\\" ≡ "\"a\\\"b\\\\\""
unfolding debug
debug_test = refl
