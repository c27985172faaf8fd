-- ===== src/Schedules/Recurrence/Windows.antt =====
-- The windows of a recurrence: `next_after` and `following` of schedules.py.
use agents_system.Prelude.{
  ℕ, zero, suc, ◌+◌, ◌-◌, ◌*◌, ◌/◌, ◌%◌, ◌≤◌, ◌<◌, ◌==◌, nat_eq, Bool, true, false, ◌&&◌, some, ◌≡◌,
  refl, arith, ltb, Bool-cases, inl, inr, subst,
}
use native.Mathlib.Nat.{lt-mul-div-succ, mul-le-mul_left, div-lt_iff_lt-mul}
use agents_system.Schedules.Recurrence.{
  second, day, Recurrence, every_day, every_week, every, weekday_of, combine, search, next_after,
  following,
}

module _ (fits : ℕ → Bool) (at zone after : ℕ) where
  combine_le : (d e : ℕ) → d ≤ e → combine d at zone ≤ combine e at zone
  unfolding combine
  combine_le d e le = omega arith

  passed_over :
      (d u : ℕ)
      → d ≤ u
      → fits u ≡ true
      → after < combine u at zone
      → (fits d && ltb after (combine d at zone)) ≡ false
      → d + 1 ≤ u
  passed_over d u le f later miss = elim (Bool-cases (ltb d u)) [
    | inl lt ↦ ground arith
    | inr ge ↦ let same : u ≡ d = ground arith in absurd (ground arith)
  ]

  -- The loop answers when a fitting day with a later window is in its range.
  search_finds :
      (left d e : ℕ)
      → d ≤ e
      → e < d + left
      → fits e ≡ true
      → after < combine e at zone
      → (t : ℕ) × (search fits at zone after left d ≡ some t)
  unfolding search
  search_finds zero d e lo hi f later = absurd (omega arith)
  search_finds (suc left) d e lo hi f later =
      elim (Bool-cases (fits d && ltb after (combine d at zone))) [
        | inl hit ↦ (combine d at zone, ground arith)
        | inr miss ↦
            let (t, h) =
              search_finds left (d + 1) e (passed_over d e lo f later miss) (omega arith) f later in
            (t, ground arith)
      ]

  -- What it answers is the window of a fitting day and is later, and no fitting day from the first
  -- on has an earlier one.
  search_first :
      (left d t : ℕ)
      → search fits at zone after left d ≡ some t
      → ((e : ℕ) × (d ≤ e) × (t ≡ combine e at zone) × (fits e ≡ true) × (after < t))
        × ((e : ℕ) → d ≤ e → fits e ≡ true → after < combine e at zone → t ≤ combine e at zone)
  unfolding search
  search_first zero d t h = absurd (cc)
  search_first (suc left) d t h = elim (Bool-cases (fits d && ltb after (combine d at zone))) [
    | inl hit ↦
        let same : t ≡ combine d at zone = ground arith in
        (
          (d, omega arith, same, ground arith, ground arith),
          λ e le f later. omega (arith, same, combine_le d e le),
        )
    | inr miss ↦
        let ((e, le, same, f, later), first) = search_first left (d + 1) t (ground arith) in
        ((e, omega arith, same, f, later), λ u lo g l. first u (passed_over d u lo g l miss) g l)
  ]

combine_date : (at zone u : ℕ) → (u + zone) % day ≡ at → combine ((u + zone) / day) at zone ≡ u
unfolding combine
combine_date at zone u h = omega arith

date-combine :
    (at zone d after : ℕ)
    → at < day
    → after < combine d at zone
    → ((combine d at zone + zone) % day ≡ at) × ((combine d at zone + zone) / day ≡ d)
unfolding combine
date-combine at zone d after a later = (omega arith, omega arith)

next_day : (at zone after e : ℕ) → (after + zone) / day < e → after < combine e at zone
unfolding combine
next_day at zone after e lt = omega arith

weekday_ahead : (w d : ℕ) → w < 7 → weekday_of (d + (w + 7 - weekday_of d) % 7) ≡ w
weekday_ahead w d h = omega arith

-- The instant after another at which the wall clock of a zone first shows a time on a fitting day.
abbrev pub IsFirst : (ℕ → Bool) → ℕ → ℕ → ℕ → ℕ → Type 0
IsFirst fits at zone after t =
    (after < t)
    × ((t + zone) % day ≡ at)
    × (fits ((t + zone) / day) ≡ true)
    × ((u : ℕ) → after < u → (u + zone) % day ≡ at → fits ((u + zone) / day) ≡ true → t ≤ u)

-- Where one of the next eight days fits, the loop finds the first instant.
search-IsFirst :
    (fits : ℕ → Bool) (at zone after e : ℕ)
    → at < day
    → (after + zone) / day < e
    → e < (after + zone) / day + 9
    → fits e ≡ true
    → (t : ℕ) × (search fits at zone after 9 ((after + zone) / day) ≡ some t)
      × IsFirst fits at zone after t
search-IsFirst fits at zone after e a lo hi f =
    let d = (after + zone) / day in
    let (t, h) =
      search_finds fits at zone after 9 d e (omega arith) hi f (next_day at zone after e lo) in
    let ((k, le, same, g, later), first) = search_first fits at zone after 9 d t h in
    let (clock, date) = date-combine at zone k after a (subst (λ x. after < x) same later) in
    (
      t,
      h,
      (
        later,
        rw same clock,
        rw same (rw date g),
        λ u lt c on.
            let v = combine_date at zone u c in
            omega (arith, v, first ((u + zone) / day) (omega arith) on (omega (arith, v))),
      ),
    )

abbrev pub IsNext : Recurrence → ℕ → ℕ → Type 0
IsNext (every_day at zone) after t = IsFirst (λ d. true) at zone after t
IsNext (every_week at weekday zone) after t = IsFirst (λ d. weekday_of d == weekday) at zone after t
IsNext (every n) after t = t ≡ after + n * second

-- A time of day, a weekday and an interval are in their ranges.
abbrev pub IsInRange : Recurrence → Type 0
IsInRange (every_day at zone) = at < day
IsInRange (every_week at weekday zone) = (at < day) × (weekday < 7)
IsInRange (every n) = 0 < n

-- A recurrence whose fields are in range always has a next window: the nine days of the loop are
-- enough. It is the first instant after the given one at which the wall clock shows the time of day,
-- for a weekly one on the weekday, or for an interval the instant one interval later.
pub next_after-IsNext :
    (r : Recurrence) (after : ℕ)
    → IsInRange r
    → (t : ℕ) × (next_after r after ≡ some t) × (after < t) × IsNext r after t
unfolding next_after
next_after-IsNext (every_day at zone) after a =
    let (t, h, first) =
      search-IsFirst (λ d. true) at zone after ((after + zone) / day + 1) a (omega arith)
        (omega arith) refl in
    (t, h, first.0, first)
next_after-IsNext (every_week at weekday zone) after (a, w) =
    let d = (after + zone) / day + 1 in
    let on = weekday_ahead weekday d w in
    let (t, h, first) =
      search-IsFirst (λ d. weekday_of d == weekday) at zone after
        (d + (weekday + 7 - weekday_of d) % 7) a (omega arith) (omega arith) (ground arith) in
    (t, h, first.0, first)
next_after-IsNext (every n) after p = (after + n * second, refl, omega arith, refl)

-- The next window of an interval after a claim lies on the grid that starts at the claimed window,
-- after the claimed window and after the claim, however late that is; no window of the grid after
-- the claim comes before it.
pub following_grid :
    (n due now : ℕ)
    → 0 < n
    → (t : ℕ) × (following (every n) due now ≡ some t)
      × (now < t)
      × ((k : ℕ) × (t ≡ due + n * second * (k + 1)))
      × ((j : ℕ) → now < due + n * second * (j + 1) → t ≤ due + n * second * (j + 1))
unfolding following
following_grid n due now p =
    let step = n * second in
    let k = (now - due) / step in
    let above : now - due < step * (k + 1) = lt-mul-div-succ (now - due) (omega arith) in
    (
      due + step * (k + 1),
      refl,
      omega (arith, above),
      (k, refl),
      λ j later.
          let one = mul-le-mul_left {m = 1} {n = j + 1} step (omega arith) in
          let far : now - due < (j + 1) * step = omega (arith, one) in
          let ahead =
            (div-lt_iff_lt-mul {k = step} {x = now - due} {y = j + 1} (omega arith)).1 far in
          omega (arith, mul-le-mul_left {m = k + 1} {n = j + 1} step (omega arith)),
    )
