-- ===== src/Theme/Clock.antt =====
-- The schedule against a description on the clock.
use kunkka.Base.{
  ℕ, ◌+◌, ◌-◌, ◌%◌, ◌≤◌, ◌<◌, ◌≡◌, ◌≢◌, ◌↔◌, subst, inl, inr, String, ◌||◌, Option, none, some,
  List, [], ◌∷◌, ltb, Bool-cases, arith,
}
use kunkka.Base.Text.Split.{split_on, parse_u32}
use kunkka.Protocol.{ThemeFlavor, latte, macchiato}
use kunkka.Theme.{ThemeConfig, ThemeSchedule}
use kunkka.Theme.Schedule.{
  Time, minutes, both, in_range, parse_parts, parse_hhmm, target, change_to, check_times,
  check_schedule, check_schedule_at,
}

-- The minutes from one time of day forward to another.
abbrev pub forward : (from to : ℕ) → ℕ
forward from to = (to + 1440 - from) % 1440

target-latte_iff :
    (current light dark : ℕ)
    → current < 1440
    → light < 1440
    → dark < 1440
    → light ≢ dark
    → (target current light dark ≡ latte) ↔ (forward light current < forward light dark)
unfolding target
target-latte_iff current light dark c l d ne = ground (arith, c, l, d, ne)

target-macchiato_iff :
    (current light dark : ℕ)
    → current < 1440
    → light < 1440
    → dark < 1440
    → light ≢ dark
    → (target current light dark ≡ macchiato) ↔ (forward light dark ≤ forward light current)
unfolding target
target-macchiato_iff current light dark c l d ne = ground (arith, c, l, d, ne)

IsTime : Time → Type 0
IsTime (hour, min) = (hour ≤ 23) × (min ≤ 59)

pair_of : {s t : Time} → some s ≡ some t → s ≡ t
pair_of h = cc

in_range-IsTime : (hour min : ℕ) (t : Time) → in_range hour min ≡ some t → IsTime t
unfolding IsTime
in_range-IsTime hour min t h = elim (Bool-cases (ltb 23 hour || ltb 59 min)) [
  | inl late ↦ absurd (none_some (rw late at h))
  | inr fits ↦ subst IsTime (pair_of (rw fits at h)) (ground (arith, fits), ground (arith, fits))
]
  where
    none_some : {t : Time} → none ≡ some t → ⊥
    none_some e = cc

both-IsTime : (hour min : Option ℕ) (t : Time) → both in_range hour min ≡ some t → IsTime t
both-IsTime none min t h = absurd (cc)
both-IsTime (some hour) none t h = absurd (cc)
both-IsTime (some hour) (some min) t h = in_range-IsTime hour min t h

parse_parts-IsTime : (parts : List String) (t : Time) → parse_parts parts ≡ some t → IsTime t
unfolding parse_parts
parse_parts-IsTime [] t h = absurd (cc)
parse_parts-IsTime (hour ∷ []) t h = absurd (cc)
parse_parts-IsTime (hour ∷ min ∷ []) t h = both-IsTime (parse_u32 hour) (parse_u32 min) t h
parse_parts-IsTime (hour ∷ min ∷ more ∷ rest) t h = absurd (cc)

-- A time that is parsed is below 24 hours, so the products of `u32` do not overflow.
parse_hhmm-bounded : (s : String) (t : Time) → parse_hhmm s ≡ some t → minutes t < 1440
unfolding parse_hhmm IsTime
parse_hhmm-bounded s t h =
    let (hour, min) = parse_parts-IsTime (split_on b':' s) t h in omega (arith, hour, min)

flavor_of : {f g : ThemeFlavor} → some f ≡ some g → f ≡ g
flavor_of h = cc

change_to_iff :
    (active wanted new : ThemeFlavor)
    → (change_to active wanted ≡ some new) ↔ ((wanted ≡ new) × (active ≢ new))
unfolding change_to
change_to_iff latte latte latte = ground arith
change_to_iff latte latte macchiato = ground arith
change_to_iff latte macchiato latte = ground arith
change_to_iff latte macchiato macchiato = ground arith
change_to_iff macchiato latte latte = ground arith
change_to_iff macchiato latte macchiato = ground arith
change_to_iff macchiato macchiato latte = ground arith
change_to_iff macchiato macchiato macchiato = ground arith

asked_iff :
    (active : ThemeFlavor) (current light dark : ℕ)
    → current < 1440
    → light < 1440
    → dark < 1440
    → light ≢ dark
    → ((change_to active (target current light dark) ≡ some latte)
        ↔ ((forward light current < forward light dark) × (active ≢ latte)))
      × ((change_to active (target current light dark) ≡ some macchiato)
          ↔ ((forward light dark ≤ forward light current) × (active ≢ macchiato)))
asked_iff active current light dark c l d ne =
    let (to, from) = target-latte_iff current light dark c l d ne in
    let (to_dark, from_dark) = target-macchiato_iff current light dark c l d ne in
    let (asks, asked) = change_to_iff active (target current light dark) latte in
    let (asks_dark, asked_dark) = change_to_iff active (target current light dark) macchiato in
    (
      (λ h. (to ((asks h).0), (asks h).1), λ (near, other). asked (from near, other)),
      (
        λ h. (to_dark ((asks_dark h).0), (asks_dark h).1),
        λ (far, other). asked_dark (from_dark far, other),
      ),
    )

-- With a schedule whose two times of day and the current one parse, and whose times differ, the schedule asks to change to the light flavor exactly when the other one is active and the clock, going forward from the light time, comes to the current time before the dark time; and to the dark flavor exactly when the other one is active and it does not. This holds whichever of the two times is the earlier.
pub check_schedule_at-forward_iff :
    (config : ThemeConfig) (schedule : ThemeSchedule) (current_time : String)
    (current light dark : Time)
    → config.schedule ≡ some schedule
    → parse_hhmm current_time ≡ some current
    → parse_hhmm schedule.light_at ≡ some light
    → parse_hhmm schedule.dark_at ≡ some dark
    → minutes light ≢ minutes dark
    → ((check_schedule_at current_time config ≡ some latte) ↔ (
        (forward (minutes light) (minutes current) < forward (minutes light) (minutes dark))
        × (config.active_flavor ≢ latte)))
      × ((check_schedule_at current_time config ≡ some macchiato) ↔ (
          (forward (minutes light) (minutes dark) ≤ forward (minutes light) (minutes current))
          × (config.active_flavor ≢ macchiato)))
unfolding check_schedule_at check_schedule check_times
check_schedule_at-forward_iff config schedule current_time current light dark scheduled at_c at_l
      at_d ne =
    rw (scheduled, at_c, at_l, at_d, check_schedule_at, check_schedule, check_times)
      (asked_iff config.active_flavor (minutes current) (minutes light) (minutes dark)
        (parse_hhmm-bounded current_time current at_c)
        (parse_hhmm-bounded schedule.light_at light at_l)
        (parse_hhmm-bounded schedule.dark_at dark at_d) ne)
