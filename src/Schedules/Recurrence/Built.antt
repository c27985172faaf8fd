-- ===== src/Schedules/Recurrence/Built.antt =====
-- `__post_init__` of `Recurrence` in schedules.py.
use agents_system.Prelude.{
  ℕ, zero, suc, ◌<◌, Option, none, some, ok, ◌≡◌, refl, subst, arith, ltb, Bool-cases, inl, inr,
}
use agents_system.Schedules.Recurrence.{
  day, Recurrence, Frequency, daily, weekly, interval, Fields, post_init, zone_of, check_weekday,
  check_time, check_interval, every_day, every_week, every,
}
use agents_system.Schedules.Recurrence.Windows.{IsInRange}

-- What is built from fields whose time of day, where there is one, is one of a day has its fields in
-- range.
pub post_init-IsInRange :
    (f : Fields) (r : Recurrence)
    → ((t : ℕ) → f.time_of_day ≡ some t → t < day)
    → post_init f ≡ ok r
    → IsInRange r
unfolding post_init zone_of check_weekday check_time check_interval
post_init-IsInRange f r times h =
    built f.frequency f.time_of_day f.weekday f.interval_s f.tz r times h
  where
    built :
        (frequency : Option Frequency) (time weekday n tz : Option ℕ) (r : Recurrence)
        → ((t : ℕ) → time ≡ some t → t < day)
        → post_init (record {
          frequency = frequency;
          time_of_day = time;
          weekday = weekday;
          interval_s = n;
          tz = tz;
        })
          ≡ ok r
        → IsInRange r
    built (some daily) (some t) w n (some z) r times h =
        let e : every_day t z ≡ r = ground arith in subst IsInRange e (times t refl)
    built (some weekly) (some t) (some w) n (some z) r times h = elim (Bool-cases (ltb w 7)) [
      | inl lt ↦
          let e : every_week t w z ≡ r = ground arith in
          subst IsInRange e (times t refl, ground arith)
      | inr ge ↦ absurd (ground arith)
    ]
    built (some interval) t w (some (suc n)) (some z) r times h =
        let e : every (suc n) ≡ r = ground arith in subst IsInRange e (omega arith)
    built none t w n z r times h = absurd (cc)
    built (some daily) none w n z r times h = absurd (cc)
    built (some daily) (some t) w n none r times h = absurd (cc)
    built (some weekly) none w n z r times h = absurd (cc)
    built (some weekly) (some t) none n z r times h = absurd (cc)
    built (some weekly) (some t) (some w) n none r times h = absurd (ground arith)
    built (some interval) t w none z r times h = absurd (cc)
    built (some interval) t w (some zero) z r times h = absurd (cc)
    built (some interval) t w (some (suc n)) none r times h = absurd (cc)
