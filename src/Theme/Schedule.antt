-- ===== src/Theme/Schedule.antt =====
-- `check_schedule_at` and `parse_hhmm` of crates/kunkka-core/src/theme/mod.rs: which flavor the time of
-- day asks for.
use kunkka.Base.{
  ℕ, ◌+◌, ◌*◌, String, Bool, true, false, ◌&&◌, ◌||◌, Option, none, some, List, [], ◌∷◌, ltb, leb,
  if◌then◌else◌,
}
use kunkka.Base.Text.Split.{split_on, parse_u32}
use kunkka.Protocol.{ThemeFlavor, latte, macchiato}
use kunkka.Theme.{ThemeConfig, ThemeSchedule}

abbrev pub Time : Type 0
Time = ℕ × ℕ

abbrev pub in_range : ℕ → ℕ → Option Time
in_range hour min = if ltb 23 hour || ltb 59 min then none else some (hour, min)

abbrev pub both : {A B C : Type 0} → (A → B → Option C) → Option A → Option B → Option C
both next none b = none
both next (some a) none = none
both next (some a) (some b) = next a b

unfoldable pub parse_parts : List String → Option Time
parse_parts [] = none
parse_parts (hour ∷ []) = none
parse_parts (hour ∷ min ∷ []) = both in_range (parse_u32 hour) (parse_u32 min)
parse_parts (hour ∷ min ∷ _ ∷ _) = none

unfoldable pub parse_hhmm : String → Option Time
unfolding parse_parts
parse_hhmm s = parse_parts (split_on b':' s)

abbrev pub minutes : Time → ℕ
minutes (hour, min) = hour * 60 + min

-- The flavor of a time of day, in minutes.
unfoldable pub target : (current light dark : ℕ) → ThemeFlavor
target current light dark =
    if ltb light dark
    then (if leb light current && ltb current dark then latte else macchiato)
    else (if leb dark current && ltb current light then macchiato else latte)

abbrev same_flavor : ThemeFlavor → ThemeFlavor → Bool
same_flavor latte latte = true
same_flavor latte macchiato = false
same_flavor macchiato latte = false
same_flavor macchiato macchiato = true

-- The new flavor, where it is not the active one.
unfoldable pub change_to : ThemeFlavor → ThemeFlavor → Option ThemeFlavor
change_to active wanted = if same_flavor wanted active then none else some wanted

unfoldable pub check_times : ThemeFlavor → Time → Option Time → Option Time → Option ThemeFlavor
unfolding change_to target
check_times active current light dark =
    both (λ l d. change_to active (target (minutes current) (minutes l) (minutes d))) light dark

unfoldable pub check_schedule : ThemeFlavor → ThemeSchedule → String → Option ThemeFlavor
unfolding check_times parse_hhmm
check_schedule active schedule current_time = elim (parse_hhmm current_time) [
  | none ↦ none
  | some current ↦
      check_times active current (parse_hhmm schedule.light_at) (parse_hhmm schedule.dark_at)
]

unfoldable pub check_schedule_at : String → ThemeConfig → Option ThemeFlavor
unfolding check_schedule
check_schedule_at current_time config = elim config.schedule [
  | none ↦ none
  | some schedule ↦ check_schedule config.active_flavor schedule current_time
]
