-- ===== src/Schedules/Recurrence.antt =====
-- `Recurrence` of schedules.py: when a schedule fires. An instant is a number of microseconds since
-- the epoch. A zone is a fixed offset in microseconds east of UTC: one to the west, and one with
-- daylight saving, is not modelled.
pub mod Windows
pub mod Built
use agents_system.Prelude.{
  ℕ, zero, suc, ◌+◌, ◌-◌, ◌*◌, ◌/◌, ◌%◌, ◌==◌, nat_eq, Bool, true, ◌&&◌, Option, none, some, String,
  if◌then◌else◌, Result, ok, err, ltb, ◌>>=◌,
}

abbrev pub second : ℕ
second = 1_000_000

abbrev pub day_s : ℕ
day_s = 86_400

abbrev pub week_s : ℕ
week_s = 7 * day_s

abbrev pub day : ℕ
day = 86_400_000_000

pub data Frequency : Type 0 where
  daily weekly interval : Frequency

-- The fields as given; no frequency stands for one that is not of the three.
pub record Fields : Type 0 where
  pub frequency : Option Frequency
  pub time_of_day : Option ℕ
  pub weekday : Option ℕ
  pub interval_s : Option ℕ
  pub tz : Option ℕ

pub data ScheduleRejected : Type 0 where
  frequency_unknown needs_time needs_weekday needs_interval zone_unknown : ScheduleRejected

-- A recurrence that was built, with the fields that its frequency reads.
pub data Recurrence : Type 0 where
  every_day : (at zone : ℕ) → Recurrence
  every_week : (at weekday zone : ℕ) → Recurrence
  every : (interval_s : ℕ) → Recurrence

unfoldable pub zone_of : Option ℕ → Result ScheduleRejected ℕ
zone_of none = err zone_unknown
zone_of (some offset) = ok offset

-- `weekday in range(7)`
unfoldable pub check_weekday : Option ℕ → Result ScheduleRejected ℕ
check_weekday none = err needs_weekday
check_weekday (some w) = if ltb w 7 then ok w else err needs_weekday

unfoldable pub check_time : Option ℕ → Result ScheduleRejected ℕ
check_time none = err needs_time
check_time (some t) = ok t

unfoldable pub check_interval : Option ℕ → Result ScheduleRejected ℕ
check_interval none = err needs_interval
check_interval (some zero) = err needs_interval
check_interval (some (suc n)) = ok (suc n)

-- `__post_init__`
unfoldable pub post_init : Fields → Result ScheduleRejected Recurrence
unfolding zone_of check_weekday check_time check_interval
post_init f = elim f.frequency [
  | none ↦ err frequency_unknown
  | some daily ↦ do at ← check_time f.time_of_day; zone ← zone_of f.tz; ok (every_day at zone)
  | some weekly ↦ do
    at ← check_time f.time_of_day
    weekday ← check_weekday f.weekday
    zone ← zone_of f.tz
    ok (every_week at weekday zone)
  | some interval ↦ do n ← check_interval f.interval_s; zone ← zone_of f.tz; ok (every n)
]

unfoldable pub min_gap_s : Recurrence → ℕ
min_gap_s (every_day _ _) = day_s
min_gap_s (every_week _ _ _) = week_s
min_gap_s (every n) = n

-- `date.weekday()` of a day since the epoch, which was a Thursday
abbrev pub weekday_of : ℕ → ℕ
weekday_of date = (date + 3) % 7

-- `datetime.combine(day, time_of_day, tzinfo=zone).astimezone(UTC)`
unfoldable pub combine : ℕ → ℕ → ℕ → ℕ
combine date at zone = date * day + at - zone

-- the loop over the next days: how many are left, and the day
unfoldable pub search : (ℕ → Bool) → ℕ → ℕ → ℕ → ℕ → ℕ → Option ℕ
search fits at zone after zero date = none
search fits at zone after (suc left) date =
    let rest = search fits at zone after left (date + 1) in
    if fits date && ltb after (combine date at zone) then some (combine date at zone) else rest

-- `next_after`; `none` stands for the assertion at its end
unfoldable pub next_after : Recurrence → ℕ → Option ℕ
unfolding search
next_after (every n) after = some (after + n * second)
next_after (every_day at zone) after = search (λ d. true) at zone after 9 ((after + zone) / day)
next_after (every_week at weekday zone) after =
    search (λ d. weekday_of d == weekday) at zone after 9 ((after + zone) / day)

-- `following`: the next window after a claim of `due` made at `now`
unfoldable pub following : Recurrence → ℕ → ℕ → Option ℕ
following (every n) due now = let step = n * second in some (due + step * ((now - due) / step + 1))
following (every_day at zone) due now = next_after (every_day at zone) now
following (every_week at weekday zone) due now = next_after (every_week at weekday zone) now
