-- ===== src/Shell/Pipeline.antt =====
-- `parse_pipeline` of crates/kunkka-core/src/capability/shell.rs and its two scanners. A scanner reads
-- one character at a time; `escaped` stands for the character that a backslash takes with it.
use Prim.Native.Char.{Char, code}
use Prim.Native.String.{[] as nil, ◌∷◌ as cons}
use kunkka.Base.{
  ℕ, String, ◌<>◌, Bool, true, false, not, ◌&&◌, ◌||◌, Option, none, some, List, [], ◌∷◌, ◌++◌,
  nat_eq, is_empty, if◌then◌else◌,
}
use kunkka.Base.Text.Trim.{trim, is_empty_text, is_whitespace, contains_char}
use kunkka.Base.Fallible.{Result, ok, err, ◌>>=◌, ◌>>◌, fail_if, ok_or}

-- crates/kunkka-worker-sdk/src/capability.rs
pub record CapabilityError : Type 0 where
  pub code : String
  pub message : String

pub record ParsedStage : Type 0 where
  pub command : String

abbrev pub invalid_shell_syntax : String → CapabilityError
invalid_shell_syntax message = record { code = "invalid_params"; message = message }

-- `found` holds the stages or words that are complete, and `current` the one being read.
pub record Scan : Type 0 where
  pub found : List String
  pub current : String
  pub in_single : Bool
  pub in_double : Bool
  pub escaped : Bool

abbrev pub start : Scan
start = record { found = []; current = ""; in_single = false; in_double = false; escaped = false }

abbrev pub push : Char → Scan → Scan
push ch s = record s { current = s.current <> cons ch nil }

abbrev pub unquoted : Scan → Bool
unquoted s = not s.in_single && not s.in_double

-- `chars.peek()`, as a code point.
abbrev pub peeks : ℕ → String → Bool
peeks c nil = false
peeks c (cons ch _) = nat_eq (code ch) c

-- The characters `;`, `<`, `>`, `` ` ``, `(`, `)`, `{` and `}`.
abbrev pub is_control : ℕ → Bool
is_control c =
    nat_eq c b';'
    || nat_eq c b'<'
    || nat_eq c b'>'
    || nat_eq c 96
    || nat_eq c b'('
    || nat_eq c b')'
    || nat_eq c b'{'
    || nat_eq c b'}'

unfoldable pub end_stage : Scan → Result CapabilityError Scan
unfolding trim
end_stage s =
    let stage = trim s.current in
    if is_empty_text stage
    then err (invalid_shell_syntax "shell stage is empty")
    else ok (record s { found = s.found ++ (stage ∷ []); current = "" })

-- One round of the loop of `split_top_level_pipelines`; `rest` is what comes after the character.
unfoldable pub pipeline_char : Scan → Char → String → Result CapabilityError Scan
unfolding end_stage
pipeline_char s ch rest =
    let c = code ch in
    if s.escaped
    then ok (record (push ch s) { escaped = false })
    else if nat_eq c 92 && not s.in_single
    then ok (record (push ch s) { escaped = true })
    else if nat_eq c 39 && not s.in_double
    then ok (record (push ch s) { in_single = not s.in_single })
    else if nat_eq c b'"' && not s.in_single
    then ok (record (push ch s) { in_double = not s.in_double })
    else if nat_eq c b'|' && unquoted s
    then (if peeks b'|' rest
        then err (invalid_shell_syntax "operator || is not supported")
        else end_stage s)
    else if nat_eq c b'&' && unquoted s
    then err (invalid_shell_syntax "operator & is not supported")
    else if is_control c && unquoted s
    then err (invalid_shell_syntax "shell syntax is not supported")
    else if nat_eq c b'$' && unquoted s && peeks b'(' rest
    then err (invalid_shell_syntax "command substitution is not supported")
    else ok (push ch s)

unfoldable pub scan_pipeline : Scan → String → Result CapabilityError Scan
unfolding pipeline_char
scan_pipeline s nil = ok s
scan_pipeline s (cons ch rest) = pipeline_char s ch rest >>= λ t. scan_pipeline t rest

unfoldable pub split_top_level_pipelines : String → Result CapabilityError (List String)
unfolding scan_pipeline trim
split_top_level_pipelines input = do
  s ← scan_pipeline start input
  fail_if (s.in_single || s.in_double) (invalid_shell_syntax "unterminated quoted string")
  let tail = trim s.current
  fail_if (is_empty_text tail) (invalid_shell_syntax "shell command is empty")
  ok (s.found ++ (tail ∷ []))

abbrev end_word : Scan → Scan
end_word s =
    if is_empty_text s.current
    then s
    else record s { found = s.found ++ (s.current ∷ []); current = "" }

-- One round of the loop of `split_stage_words`.
unfoldable pub word_char : Scan → Char → Scan
unfolding is_whitespace
word_char s ch =
    let c = code ch in
    if s.escaped
    then record (push ch s) { escaped = false }
    else if nat_eq c 92 && not s.in_single
    then record s { escaped = true }
    else if nat_eq c 39 && not s.in_double
    then record s { in_single = not s.in_single }
    else if nat_eq c b'"' && not s.in_single
    then record s { in_double = not s.in_double }
    else if is_whitespace c && unquoted s
    then end_word s
    else push ch s

unfoldable pub scan_words : Scan → String → Scan
unfolding word_char
scan_words s nil = s
scan_words s (cons ch rest) = scan_words (word_char s ch) rest

unfoldable pub split_stage_words : String → Result CapabilityError (List String)
unfolding scan_words
split_stage_words stage =
    let s = scan_words start stage in
    if s.in_single || s.in_double
    then err (invalid_shell_syntax "unterminated quoted string")
    else ok (end_word s).found

abbrev pub first : List String → Option String
first [] = none
first (w ∷ ws) = some w

unfoldable pub parse_stage : String → Result CapabilityError ParsedStage
unfolding split_stage_words contains_char
parse_stage stage = do
  words ← split_stage_words stage
  command ← ok_or (first words) (invalid_shell_syntax "shell stage is empty")
  fail_if (contains_char b'=' command)
      (invalid_shell_syntax "leading environment assignments are not supported")
  ok (record { command = command })

unfoldable pub parse_stages : List String → Result CapabilityError (List ParsedStage)
unfolding parse_stage
parse_stages [] = ok []
parse_stages (stage ∷ stages) = do
  parsed ← parse_stage stage
  others ← parse_stages stages
  ok (parsed ∷ others)

unfoldable pub parse_pipeline : String → Result CapabilityError (List ParsedStage)
unfolding split_top_level_pipelines parse_stages
parse_pipeline input = do
  stages ← split_top_level_pipelines input
  fail_if (is_empty stages) (invalid_shell_syntax "shell command is empty")
  parse_stages stages
