-- ===== src/Shell/Quoted.antt =====
-- Where `split_top_level_pipelines` of crates/kunkka-core/src/capability/shell.rs cuts a command line,
-- described apart from its scanner.
use Prim.Native.Char.{Char, code}
use Prim.Native.String.{[] as nil, ◌∷◌ as cons}
use mathlib.Core.List
use mathlib.Core.Option.{some-injective}
use text.Mathlib.TextLemmas.{nil-append, cons-append, append-nil, append_assoc}
use kunkka.Base.{
  ℕ, String, ◌<>◌, ◌≡◌, refl, sym, ap, subst, ◌∙◌, inl, inr, Bool, true, false, ◌||◌, Option, none,
  some, List, [], ◌∷◌, ◌++◌, map, arith, nat_eq, nat_eq_iff, if◌then◌else◌, Bool-cases,
}
use kunkka.Base.Text.Trim.{trim, is_empty_text}
use kunkka.Base.Fallible.{Result, ok, err, ◌>>=◌, ◌>>◌, fail_if}
use kunkka.Shell.Pipeline.{
  CapabilityError, invalid_shell_syntax, Scan, end_stage, pipeline_char, scan_pipeline,
  split_top_level_pipelines,
}

-- How a character is quoted by what stands before it.
pub data Mode : Type 0 where
  plain single_quoted double_quoted after_backslash quoted_after_backslash : Mode

-- The characters that the shell reads as an operator where they are plain: | & ; < > ` ( ) { }
abbrev pub is_operator : ℕ → Bool
is_operator c =
    nat_eq c 124
    || nat_eq c 38
    || nat_eq c 59
    || nat_eq c 60
    || nat_eq c 62
    || nat_eq c 96
    || nat_eq c 40
    || nat_eq c 41
    || nat_eq c 123
    || nat_eq c 125

-- The mode after a character, `none` for an operator that is plain.
unfoldable pub next_mode : Mode → ℕ → Option Mode
next_mode after_backslash c = some plain
next_mode quoted_after_backslash c = some double_quoted
next_mode single_quoted c = if nat_eq c 39 then some plain else some single_quoted
next_mode double_quoted c =
    if nat_eq c 92
    then some quoted_after_backslash
    else if nat_eq c 34
    then some plain
    else some double_quoted
next_mode plain c =
    if nat_eq c 92
    then some after_backslash
    else if nat_eq c 39
    then some single_quoted
    else if nat_eq c 34
    then some double_quoted
    else if is_operator c
    then none
    else some plain

-- The mode at the end of a text that holds no operator that is plain.
unfoldable pub mode_after : Mode → String → Option Mode
unfolding next_mode
mode_after m nil = some m
mode_after m (cons c s) = elim (next_mode m (code c)) [ none ↦ none | some k ↦ mode_after k s ]

-- A command line cut at its pipes. Each piece but the last ends in plain text, where the pipe stands;
-- the last one may end in a lone backslash; and none holds an operator that is plain.
pub data Cut : String → List String → Type 0 where
  last : (piece : String) → mode_after plain piece ≡ some plain → Cut piece (piece ∷ [])
  last_backslash :
      (piece : String) → mode_after plain piece ≡ some after_backslash → Cut piece (piece ∷ [])
  pipe :
      (piece rest : String) (bar : Char) (pieces : List String)
      → mode_after plain piece ≡ some plain
      → code bar ≡ b'|'
      → Cut rest pieces
      → Cut (piece <> cons bar rest) (piece ∷ pieces)

mode_after-snoc :
    (m k : Mode) (s : String) (c : Char)
    → mode_after m s ≡ some k
    → mode_after m (s <> cons c nil) ≡ next_mode k (code c)
unfolding mode_after
mode_after-snoc m k nil c h =
    rw (nil-append (cons c nil), mode_after)
      (single_step (next_mode m (code c)) ∙ ap (λ n. next_mode n (code c)) (some-injective m k h))
  where
    single_step : (o : Option Mode) → (elim o [ none ↦ none | some k ↦ some k ]) ≡ o
    single_step none = refl
    single_step (some n) = refl
mode_after-snoc m k (cons d s) c h =
    rw (cons-append d s (cons c nil))
      (step (next_mode m (code d)) refl (λ n. mode_after-snoc n k s c))
  where
    step :
        (o : Option Mode)
        → next_mode m (code d) ≡ o
        → ((n : Mode)
            → mode_after n s ≡ some k
            → mode_after n (s <> cons c nil) ≡ next_mode k (code c))
        → mode_after m (cons d (s <> cons c nil)) ≡ next_mode k (code c)
    step none stop later = absurd (ground (arith, stop, h))
    step (some n) goes later = rw (goes, mode_after) (later n (rw (goes, mode_after) at h))

-- The scanner in a mode.
abbrev scan_at : Mode → List String → String → Scan
scan_at m found current = record {
  found = found;
  current = current;
  in_single = elim m [ single_quoted ↦ true | other ↦ false ];
  in_double = elim m [ double_quoted ↦ true | quoted_after_backslash ↦ true | other ↦ false ];
  escaped = elim m [ after_backslash ↦ true | quoted_after_backslash ↦ true | other ↦ false ];
}

-- What a round of the scanner does: it takes the character, which moves the mode, or it ends a stage at
-- a plain pipe.
data Round (m : Mode) (found : List String) (current : String) (ch : Char) : Scan → Type 0 where
  taken :
      (k : Mode)
      → next_mode m (code ch) ≡ some k
      → Round m found current ch (scan_at k found (current <> cons ch nil))
  cut :
      m ≡ plain
      → code ch ≡ 124
      → Round m found current ch (scan_at plain (found ++ (trim current ∷ [])) "")

taken_by :
    (m k : Mode) (found : List String) (current : String) (ch : Char) (t : Scan)
    → next_mode m (code ch) ≡ some k
    → scan_at k found (current <> cons ch nil) ≡ t
    → Round m found current ch t
taken_by m k found current ch t goes same = subst (Round m found current ch) same (taken k goes)

-- At a plain character that is neither a backslash nor a quotation mark.
plain_char-Round :
    (found : List String) (current : String) (ch : Char) (rest : String) (t : Scan)
    → nat_eq (code ch) 92 ≡ false
    → nat_eq (code ch) 39 ≡ false
    → nat_eq (code ch) 34 ≡ false
    → pipeline_char (scan_at plain found current) ch rest ≡ ok t
    → Round plain found current ch t
unfolding pipeline_char next_mode end_stage
plain_char-Round found current ch rest t b q d h = elim (Bool-cases (nat_eq (code ch) 124)) [
  | inl bar ↦
      subst (Round plain found current ch) (ground (arith, b, q, d, bar, h))
        (cut refl ((nat_eq_iff (code ch) 124).0 bar))
  | inr other ↦ elim (Bool-cases (is_operator (code ch))) [
    | inl operator ↦ absurd (ground (arith, b, q, d, other, operator, h))
    | inr free ↦
        taken_by plain plain found current ch t (ground (arith, b, q, d, free))
          (ground (arith, b, q, d, other, free, h))
  ]
]

pipeline_char-Round :
    (m : Mode) (found : List String) (current : String) (ch : Char) (rest : String) (t : Scan)
    → pipeline_char (scan_at m found current) ch rest ≡ ok t
    → Round m found current ch t
unfolding pipeline_char next_mode end_stage
pipeline_char-Round after_backslash found current ch rest t h =
    taken_by after_backslash plain found current ch t refl (cc)
pipeline_char-Round quoted_after_backslash found current ch rest t h =
    taken_by quoted_after_backslash double_quoted found current ch t refl (cc)
pipeline_char-Round single_quoted found current ch rest t h =
    elim (Bool-cases (nat_eq (code ch) 39)) [
      | inl quote ↦
          taken_by single_quoted plain found current ch t (ground (arith, quote))
            (ground (arith, quote, h))
      | inr other ↦
          taken_by single_quoted single_quoted found current ch t (ground (arith, other))
            (ground (arith, other, h))
    ]
pipeline_char-Round double_quoted found current ch rest t h =
    elim (Bool-cases (nat_eq (code ch) 92)) [
      | inl backslash ↦
          taken_by double_quoted quoted_after_backslash found current ch t
            (ground (arith, backslash)) (ground (arith, backslash, h))
      | inr other ↦ elim (Bool-cases (nat_eq (code ch) 34)) [
        | inl quote ↦
            taken_by double_quoted plain found current ch t (ground (arith, other, quote))
              (ground (arith, quote, other, h))
        | inr neither ↦
            taken_by double_quoted double_quoted found current ch t (ground (arith, other, neither))
              (ground (arith, neither, other, h))
      ]
    ]
pipeline_char-Round plain found current ch rest t h = elim (Bool-cases (nat_eq (code ch) 92)) [
  | inl backslash ↦
      taken_by plain after_backslash found current ch t (ground (arith, backslash))
        (ground (arith, backslash, h))
  | inr b ↦ elim (Bool-cases (nat_eq (code ch) 39)) [
    | inl quote ↦
        taken_by plain single_quoted found current ch t (ground (arith, b, quote))
          (ground (arith, b, quote, h))
    | inr q ↦ elim (Bool-cases (nat_eq (code ch) 34)) [
      | inl double ↦
          taken_by plain double_quoted found current ch t (ground (arith, b, q, double))
            (ground (arith, b, q, double, h))
      | inr d ↦ plain_char-Round found current ch rest t b q d h
    ]
  ]
]

-- The pieces of the rest of a command line, and the stages that the scanner makes of them.
pub record Pieces (found : List String) (text : String) (stages : List String) : Type 0 where
  pieces : List String
  cut : Cut text pieces
  stages_are : stages ≡ found ++ map trim pieces

-- What follows the scan.
abbrev ended : Scan → Result CapabilityError (List String)
ended s = do
  fail_if (s.in_single || s.in_double) (invalid_shell_syntax "unterminated quoted string")
  let tail = trim s.current
  fail_if (is_empty_text tail) (invalid_shell_syntax "shell command is empty")
  ok (s.found ++ (tail ∷ []))

one_piece :
    (found : List String) (current : String) (stages : List String)
    → Cut current (current ∷ [])
    → found ++ (trim current ∷ []) ≡ stages
    → Pieces found current stages
one_piece found current stages c same = record {
  pieces = current ∷ [];
  cut = c;
  stages_are = sym same;
}

ended-Pieces :
    (m : Mode) (found : List String) (current : String) (stages : List String)
    → mode_after plain current ≡ some m
    → ended (scan_at m found current) ≡ ok stages
    → Pieces found current stages
ended-Pieces plain found current stages a h =
    one_piece found current stages (last current a) (ground (arith, h))
ended-Pieces after_backslash found current stages a h =
    one_piece found current stages (last_backslash current a) (ground (arith, h))
ended-Pieces single_quoted found current stages a h = absurd (ground (arith, h))
ended-Pieces double_quoted found current stages a h = absurd (ground (arith, h))
ended-Pieces quoted_after_backslash found current stages a h = absurd (ground (arith, h))

-- A stage that the scanner has ended is the piece before a pipe.
more-Pieces :
    (found : List String) (current : String) (bar : Char) (rest : String) (stages : List String)
    → mode_after plain current ≡ some plain
    → code bar ≡ b'|'
    → Pieces (found ++ (trim current ∷ [])) rest stages
    → Pieces found (current <> cons bar rest) stages
more-Pieces found current bar rest stages a is_bar p = record {
  pieces = current ∷ p.pieces;
  cut = pipe current rest bar p.pieces a is_bar p.cut;
  stages_are = p.stages_are ∙ List.append_assoc found (trim current ∷ []) (map trim p.pieces);
}

Round-Pieces :
    (m : Mode) (found : List String) (current : String) (ch : Char) (rest : String)
    (stages : List String) (t : Scan)
    → mode_after plain current ≡ some m
    → Round m found current ch t
    → (scan_pipeline t rest >>= ended) ≡ ok stages
    → ((k : Mode)
        → mode_after plain (current <> cons ch nil) ≡ some k
        → (scan_pipeline (scan_at k found (current <> cons ch nil)) rest >>= ended) ≡ ok stages
        → Pieces found ((current <> cons ch nil) <> rest) stages)
    → ((scan_pipeline (scan_at plain (found ++ (trim current ∷ [])) "") rest >>= ended) ≡ ok stages
        → Pieces (found ++ (trim current ∷ [])) ("" <> rest) stages)
    → Pieces found (current <> cons ch rest) stages
Round-Pieces m found current ch rest stages _ a (taken k goes) h on cut_here =
    subst (λ x. Pieces found x stages)
      (append_assoc current (cons ch nil) rest
        ∙ ap (λ x. current <> x) (cons-append ch nil rest ∙ ap (cons ch) (nil-append rest)))
      (on k (mode_after-snoc plain m current ch a ∙ goes) h)
Round-Pieces m found current ch rest stages _ a (cut is_plain is_bar) h on cut_here =
    more-Pieces found current ch rest stages (a ∙ ap some is_plain) is_bar
      (subst (λ x. Pieces (found ++ (trim current ∷ [])) x stages) (nil-append rest) (cut_here h))

scan-Pieces :
    (m : Mode) (found : List String) (current text : String) (stages : List String)
    → mode_after plain current ≡ some m
    → (scan_pipeline (scan_at m found current) text >>= ended) ≡ ok stages
    → Pieces found (current <> text) stages
unfolding scan_pipeline mode_after
scan-Pieces m found current nil stages a h =
    subst (λ x. Pieces found x stages) (sym (append-nil current))
      (ended-Pieces m found current stages a h)
scan-Pieces m found current (cons ch rest) stages a h =
    by_round (pipeline_char (scan_at m found current) ch rest) refl
      (λ k. scan-Pieces k found (current <> cons ch nil) rest stages)
      (scan-Pieces plain (found ++ (trim current ∷ [])) "" rest stages refl)
  where
    by_round :
        (r : Result CapabilityError Scan)
        → pipeline_char (scan_at m found current) ch rest ≡ r
        → ((k : Mode)
            → mode_after plain (current <> cons ch nil) ≡ some k
            → (scan_pipeline (scan_at k found (current <> cons ch nil)) rest >>= ended) ≡ ok stages
            → Pieces found ((current <> cons ch nil) <> rest) stages)
        → ((scan_pipeline (scan_at plain (found ++ (trim current ∷ [])) "") rest >>= ended)
              ≡ ok stages
            → Pieces (found ++ (trim current ∷ [])) ("" <> rest) stages)
        → Pieces found (current <> cons ch rest) stages
    by_round (err e) bad on cut_here = absurd (ground (arith, bad, h))
    by_round (ok t) good on cut_here =
        Round-Pieces m found current ch rest stages t a
          (pipeline_char-Round m found current ch rest t good) (rw (good, scan_pipeline) at h) on
          cut_here

-- A command line that splits into stages is cut at its pipes that are plain, that is outside of quotes
-- and with no backslash before them, and at no other place. The stages are the pieces, trimmed, and no
-- piece holds a plain operator of the shell: a pipe, `&`, `;`, `<`, `>`, a backquote, a parenthesis or a
-- brace.
pub split_top_level_pipelines-Cut :
    (input : String) (stages : List String)
    → split_top_level_pipelines input ≡ ok stages
    → (pieces : List String) × Cut input pieces × (stages ≡ map trim pieces)
unfolding split_top_level_pipelines mode_after
split_top_level_pipelines-Cut input stages h =
    let p = scan-Pieces plain [] "" input stages refl h in
    (p.pieces, subst (λ x. Cut x p.pieces) (nil-append input) p.cut, p.stages_are)
