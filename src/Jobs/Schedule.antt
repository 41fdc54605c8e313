-- ===== src/Jobs/Schedule.antt =====
-- `parseSimpleSchedule` and the ticks of `runScheduler` in internal/jobs/jobs.go. Times and durations
-- count nanoseconds, times from Go's zero time, on which `Truncate` counts too.
use text.Mathlib.Text.{starts_with}
use mentis_eterna.Prelude.{
  ℕ, zero, suc, ◌+◌, ◌-◌, ◌*◌, ◌%◌, ◌≤◌, ◌<◌, String, false, Option, none, some, ◌≡◌, ◌⊎◌, inl, inr,
  subst, sym, leb, ◌==◌, string_key, arith, if◌then◌else◌,
}

abbrev pub hour : ℕ
hour = 60 * 60 * 1_000_000_000

abbrev drop_chars : ℕ → String → String
drop_chars zero s = s
drop_chars (suc n) String.[] = String.[]
drop_chars (suc n) (String.◌∷◌ c s) = drop_chars n s

-- `parse_duration` is `time.ParseDuration`, for durations that are not negative.
unfoldable pub parse_simple_schedule : (String → Option ℕ) → String → Option ℕ
parse_simple_schedule parse_duration schedule =
    if starts_with schedule "@every "
    then parse_duration (drop_chars 7 schedule)
    else if schedule == "@daily"
    then some (24 * hour)
    else if schedule == "@hourly"
    then some hour
    else none

-- How long the scheduler sleeps from `now`.
unfoldable pub next_sleep : String → ℕ → ℕ → ℕ
next_sleep schedule d now =
    if starts_with schedule "@every "
    then d
    else (let next = now - now % d + d in if leb next now then next + d - now else next - now)

period :
    (parse_duration : String → Option ℕ) (schedule : String) (d : ℕ)
    → starts_with schedule "@every " ≡ false
    → parse_simple_schedule parse_duration schedule ≡ some d
    → (d ≡ hour) ⊎ (d ≡ 24 * hour)
unfolding parse_simple_schedule
period parse schedule d e h = ground arith

abbrev IsAligned : String → ℕ → ℕ → Type 0
IsAligned schedule now d =
    (0 < next_sleep schedule d now)
    × (next_sleep schedule d now ≤ d)
    × ((now + next_sleep schedule d now) % d ≡ 0)

hour-IsAligned :
    (schedule : String) (now : ℕ)
    → starts_with schedule "@every " ≡ false
    → IsAligned schedule now hour
unfolding next_sleep
hour-IsAligned schedule now e = (ground arith, ground arith, ground arith)

day-IsAligned :
    (schedule : String) (now : ℕ)
    → starts_with schedule "@every " ≡ false
    → IsAligned schedule now (24 * hour)
unfolding next_sleep
day-IsAligned schedule now e = (ground arith, ground arith, ground arith)

-- A schedule that is not "@every …" ticks at the next multiple of its period, one hour or one day:
-- the sleep is not 0 and not longer than the period, and it ends on a multiple.
pub next_sleep_aligned :
    (parse_duration : String → Option ℕ) (schedule : String) (d now : ℕ)
    → starts_with schedule "@every " ≡ false
    → parse_simple_schedule parse_duration schedule ≡ some d
    → (0 < next_sleep schedule d now)
      × (next_sleep schedule d now ≤ d)
      × ((now + next_sleep schedule d now) % d ≡ 0)
next_sleep_aligned parse schedule d now e h = elim (period parse schedule d e h) [
  | inl p ↦ subst (IsAligned schedule now) (sym p) (hour-IsAligned schedule now e)
  | inr p ↦ subst (IsAligned schedule now) (sym p) (day-IsAligned schedule now e)
]
