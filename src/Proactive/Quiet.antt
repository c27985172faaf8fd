-- ===== src/Proactive/Quiet.antt =====
-- `ProactivePolicy.quiet_until` of proactive.py. An instant is a number of microseconds since the
-- epoch. A zone is a fixed offset in microseconds east of UTC (a day less for the west, which moves
-- the date and not the wall clock); a zone with daylight saving is not modelled.
pub mod Ends
use agents_system.Prelude.{
  ℕ, ◌+◌, ◌-◌, ◌%◌, Bool, true, false, ◌&&◌, ◌||◌, Option, none, some, if◌then◌else◌, ltb, leb,
}

abbrev pub minute : ℕ
minute = 60_000_000

abbrev pub day : ℕ
day = 86_400_000_000

-- `local.time()`
abbrev pub time_of_day : ℕ → ℕ → ℕ
time_of_day offset now = (now + offset) % day

-- `inside`, for a window that may wrap midnight
unfoldable pub is_inside : ℕ → ℕ → ℕ → Bool
is_inside start end t = if leb start end then leb start t && ltb t end else leb start t || ltb t end

-- `local.replace(hour=end.hour, minute=end.minute, second=0, microsecond=0)`, in local time
unfoldable pub window_end : ℕ → ℕ → ℕ
window_end local end = local - local % day + (end - end % minute)

unfoldable pub quiet_until : Option (ℕ × ℕ) → ℕ → ℕ → Option ℕ
quiet_until none offset now = none
quiet_until (some (start, end)) offset now =
    let local = now + offset in
    let ends = window_end local end in
    if is_inside start end (local % day)
    then some ((if leb ends local then ends + day else ends) - offset)
    else none
