-- ===== src/Outbox/Backoff.antt =====
-- The delay before a retry of `record_outbox_failure` of services/outbox.py.
use agents_system.Prelude.{
  ℕ, suc, ◌+◌, ◌*◌, ◌/◌, ◌%◌, ◌^◌, min, ◌<◌, ◌≤◌, true, false, not, ◌||◌, leb, ltb, ◌≡◌, refl, ap,
  sym, ◌∙◌, subst, ◌⊎◌, inl, inr, arith, Bool-cases, leb→le, nat_eq, String, map, ok,
}
use native.Mathlib.Nat.{div-le_of_le-mul, div-add-mod, mul-le-mul_left, mul_comm}
use agents_system.Outbox.{Work, Outbox}
use agents_system.Outbox.Settle.{
  Jitter, negative, ratio, is_unit, rounded, retry_window_seconds, retry_delay, Failure,
  FailureOutcome, fail_for_now, fail_on, fail_terminally, record_outbox_failure, retry_row,
  failure_row,
}
use agents_system.Outbox.Claim.{update_row}
use agents_system.Outbox.Ended.{EndsRow, fail_terminally-EndsRow}
use agents_system.Outbox.Changes.{IsFound, at_id, failure_commits}

-- The rounding of a quotient that is at most `w`.
rounded-le : (w a den : ℕ) → a ≤ suc den * w → rounded a den ≤ w
unfolding rounded
rounded-le w a den h = elim (Bool-cases (ltb (a / suc den) w)) [
  | inl lt ↦ ground arith
  | inr ge ↦
      let le = div-le_of_le-mul (suc den) h in
      let q : a / suc den ≡ w = omega (arith, leb→ge (a / suc den) w ge) in
      let sum : suc den * w + a % suc den ≡ a =
        subst (λ x. suc den * x + a % suc den ≡ a) q (div-add-mod a (suc den)) in
      let r : a % suc den ≡ 0 = exact_rest (suc den * w) (a % suc den) a sum h in
      let even : ltb (2 * (a % suc den)) (suc den) ≡ true = rw r (ground arith) in ground arith
]
  where
    leb→ge : (q w : ℕ) → ltb q w ≡ false → w ≤ q
    leb→ge q w h = ground arith

    exact_rest : (p r a : ℕ) → p + r ≡ a → a ≤ p → r ≡ 0
    exact_rest p r a e h = omega arith

-- The delay is within the window of the attempt.
retry_delay-le :
    (n : ℕ) (j : Jitter) → is_unit j ≡ true → retry_delay n j ≤ retry_window_seconds n * 1000000
unfolding is_unit retry_delay
retry_delay-le n negative u = absurd (ground arith)
retry_delay-le n (ratio num den) u =
    let w = retry_window_seconds n * 1000000 in
    let le : w * num ≤ w * suc den = mul-le-mul_left w (leb→le num (suc den) u) in
    rounded-le w (w * num) den (subst (λ x. w * num ≤ x) (mul_comm w (suc den)) le)

window : (n : ℕ) → (retry_window_seconds n ≤ min (2 ^ n) 300) × (retry_window_seconds n ≤ 300)
unfolding retry_window_seconds
window n = ground arith

-- A failure that is recorded was of a row that the worker holds. It is terminal exactly where it is
-- not retryable or no attempt is left: the row alone is changed then, it is failed without its lease,
-- and keeps its reply, or where it holds none is given the fallback, which alone is told back;
-- otherwise an attempt is left, and the row, without its lease, is available again after at most two
-- to the number of attempts seconds, and never more than 300.
pub failure-outcome :
    (now clock id : ℕ) (worker : String) (failure : Failure) (box : Outbox) (o : FailureOutcome)
    → record_outbox_failure now clock id worker failure box ≡ ok o
    → (w : Work) × IsFound id worker clock box w
      × (((o.terminal ≡ true)
            × ((failure.retryable ≡ false) ⊎ (failure.max_attempts ≤ w.attempt_count))
            × EndsRow now failure box w o)
          ⊎ ((o.terminal ≡ false)
              × ((failure.retryable ≡ true) × (w.attempt_count < failure.max_attempts))
              × ((at : ℕ) × (now ≤ at)
                  × (at ≤ now + min (2 ^ w.attempt_count) 300 * 1000000)
                  × (at ≤ now + 300000000)
                  × (o.box.rows
                      ≡ map
                          (at_id w.id (λ x. retry_row at (failure_row failure.error x)))
                          box.rows))))
unfolding fail_on fail_for_now update_row
failure-outcome now clock id worker failure box o h =
    let (w, found, e) = failure_commits now clock id worker failure box o h in
    (
      w,
      found,
      elim (Bool-cases (not failure.retryable || leb failure.max_attempts w.attempt_count)) [
        | inl g ↦
            let same : fail_terminally now failure w box ≡ o = ground arith in
            inl (
              ap (λ (x : FailureOutcome). x.terminal) (sym same) ∙ ends w,
              (elim (Bool-cases failure.retryable) [
                | inl again ↦ inr (ground arith)
                | inr never ↦ inl never
              ]),
              subst (EndsRow now failure box w) same (fail_terminally-EndsRow now failure box w),
            )
        | inr g ↦ elim (Bool-cases (is_unit failure.jitter)) [
          | inr u ↦ absurd (ground arith)
          | inl u ↦
              let le = retry_delay-le w.attempt_count failure.jitter u in
              let (le_window, le_cap) = window w.attempt_count in
              inr (
                ground arith,
                (ground arith, ground arith),
                (
                  now + retry_delay w.attempt_count failure.jitter,
                  omega arith,
                  omega (arith, le, le_window),
                  omega (arith, le, le_cap),
                  ground arith,
                ),
              )
        ]
      ],
    )
  where
    ends : (w : Work) → (fail_terminally now failure w box).terminal ≡ true
    ends w = unfold fail_terminally in refl
