-- ===== src/Proactive/Quiet/Ends.antt =====
-- The answers of `quiet_until` of proactive.py, against the windows they end.
use agents_system.Prelude.{ℕ, ◌+◌, ◌-◌, ◌*◌, ◌%◌, ◌≤◌, ◌<◌, true, none, some, ◌≡◌, ◌≢◌, arith}
use agents_system.Proactive.Quiet.{minute, day, time_of_day, is_inside, window_end, quiet_until}

module _ (start end offset now : ℕ) (until : ℕ) where
  -- An instant inside quiet hours is told an end that is later, and at most a day away.
  quiet_until_later :
      end < day
      → quiet_until (some (start, end)) offset now ≡ some until
      → (now < until) × (until ≤ now + day)
  unfolding quiet_until window_end
  quiet_until_later e h = ground arith

  -- For an end on a whole minute the answer is exact: the instant itself and every later one before
  -- the answer is inside quiet hours, and at the answer they are over.
  pub quiet_until_exact :
      start < day
      → end < day
      → start ≢ end
      → end % minute ≡ 0
      → quiet_until (some (start, end)) offset now ≡ some until
      → (now < until)
        × (until ≤ now + day)
        × ((t : ℕ) → now ≤ t → t < until → is_inside start end (time_of_day offset t) ≡ true)
        × (quiet_until (some (start, end)) offset until ≡ none)
  unfolding quiet_until window_end is_inside
  quiet_until_exact s e d m h = (ground arith, ground arith, λ t lo hi. ground arith, ground arith)

  -- Where the end has seconds, an instant inside the end's own minute is held too long: the answer is
  -- at least 23 hours and 58 minutes away, although quiet hours are over within that minute, at the
  -- end itself.
  pub quiet_until_partial_minute :
      start < day
      → end < day
      → start ≢ end
      → is_inside start end (time_of_day offset now) ≡ true
      → end - end % minute ≤ time_of_day offset now
      → time_of_day offset now < end
      → quiet_until (some (start, end)) offset now ≡ some until
      → (now + day ≤ until + 2 * minute)
        × (quiet_until (some (start, end)) offset (now + (end - time_of_day offset now)) ≡ none)
        × (end - time_of_day offset now < minute)
  unfolding quiet_until window_end is_inside
  quiet_until_partial_minute s e d inside lo hi h = (ground arith, ground arith, ground arith)
