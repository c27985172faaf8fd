-- ===== src/ExecutionLimits/Lease.antt =====
-- The limits of execution_limits.py, against the outbox lease.
use agents_system.Prelude.{
  ℕ, zero, suc, ◌+◌, ◌≤◌, ◌<◌, true, false, Option, none, some, String, string_eq, [], ◌∷◌, ok, ◌≡◌,
  refl, sym, subst, ◌∙◌, ◌↔◌, arith, contains, every, All, bind-ok, Bool-cases, inl, inr,
}
use agents_system.Dict
use agents_system.Dict.{Dict}
use agents_system.ExecutionLimits.{
  Value, whole, real, millionths, lease_margin, reply_send_allowance, total_key, tool_key,
  deployment_limit_keys, whole_number_keys, check_turn_fits_lease, check_margin_covers_checkpointer,
  check_effective_limits, checked_value, checked_values, check_pair, check_total, mapping,
  validate_known, validate_execution_limits,
}

-- Where the effective limits and the checkpointer's timeout are accepted, a tool call is no longer
-- than its turn, and the thread's read, the turn, the thread's save and the sending of the reply
-- together end before the outbox lease does.
pub effective_lease :
    (total tool checkpointer lease : ℕ)
    → check_effective_limits total tool lease ≡ ok tt
    → check_margin_covers_checkpointer checkpointer ≡ ok tt
    → (tool ≤ total) × (checkpointer + total + checkpointer + reply_send_allowance < lease)
unfolding check_effective_limits check_turn_fits_lease check_margin_covers_checkpointer
effective_lease total tool checkpointer lease e m = (ground arith, ground arith)

-- A value that is accepted under a key: a positive number, whole for a count.
abbrev pub IsAccepted : String × Value → Type 0
IsAccepted (key, whole n) = 0 < n
IsAccepted (key, real n) = (0 < n) × (contains key whole_number_keys ≡ false)
IsAccepted (key, _) = ⊥

checked_value_iff :
    (key : String) (v w : Value) → checked_value key v ≡ ok w ↔ (IsAccepted (key, v) × (v ≡ w))
unfolding checked_value
checked_value_iff key (whole zero) w = (λ h. absurd (cc), λ h. absurd (omega (arith, h.0)))
checked_value_iff key (whole (suc n)) w = (λ h. (omega arith, ground arith), λ h. ground arith)
checked_value_iff key (real zero) w = (λ h. absurd (cc), λ h. absurd (omega (arith, h.0)))
checked_value_iff key (real (suc n)) w =
    (λ h. ((omega arith, ground arith), ground arith), λ h. ground arith)
checked_value_iff key Value.negative w = (λ h. absurd (cc), λ h. absurd h.0)
checked_value_iff key Value.not_finite w = (λ h. absurd (cc), λ h. absurd h.0)
checked_value_iff key Value.not_a_number w = (λ h. absurd (cc), λ h. absurd h.0)

checked_values_iff :
    (raw limits : Dict String Value)
    → checked_values raw ≡ ok limits ↔ (All IsAccepted raw × (raw ≡ limits))
unfolding checked_values
checked_values_iff [] limits = (λ h. (tt, ground arith), λ h. ground arith)
checked_values_iff ((key, v) ∷ raw) limits = (
  λ h.
      let (w, hw, h1) = bind-ok (checked_value key v) _ limits h in
      let (rest, hr, h2) = bind-ok (checked_values raw) _ limits h1 in
      let (acc, same) = (checked_value_iff key v w).0 hw in
      let (accs, sames) = (checked_values_iff raw rest).0 hr in
      let e : (key, w) ∷ rest ≡ limits = ground arith in
      ((acc, accs), (λ i. (key, same i) ∷ sames i) ∙ e),
  λ ((acc, accs), same). ground (
    arith,
    (checked_value_iff key v v).1 (acc, refl),
    (checked_values_iff raw raw).1 (accs, refl),
  ),
)

-- A tool call is no longer than a turn whose length is given beside it.
abbrev pub IsPaired : Option Value → Option Value → Type 0
IsPaired (some total) (some tool) = millionths tool ≤ millionths total
IsPaired _ _ = Unit

abbrev pub FitsLease : Option Value → ℕ → Type 0
FitsLease (some total) lease = millionths total + lease_margin < lease
FitsLease none lease = Unit

check_pair_iff : (total tool : Option Value) → check_pair total tool ≡ ok tt ↔ IsPaired total tool
unfolding check_pair
check_pair_iff (some total) (some tool) = (λ h. ground arith, λ h. ground arith)
check_pair_iff (some total) none = (λ h. tt, λ h. refl)
check_pair_iff none tool = (λ h. tt, λ h. refl)

check_total_iff :
    (total : Option Value) (lease : ℕ) → check_total total lease ≡ ok tt ↔ FitsLease total lease
unfolding check_total check_turn_fits_lease
check_total_iff (some total) lease = (λ h. ground arith, λ h. ground arith)
check_total_iff none lease = (λ h. tt, λ h. refl)

-- A mapping is accepted exactly when its keys are those that a deployment may set, each value is a
-- finite number above zero, whole for a count, a tool call is no longer than a turn given beside
-- it, and the turn with its margin ends before the lease; it is then returned as it was given.
pub validate_execution_limits_iff :
    (raw limits : Dict String Value) (lease : ℕ)
    → validate_execution_limits (mapping raw) lease ≡ ok limits ↔ (
        (every (λ p. contains p.0 deployment_limit_keys) raw ≡ true)
        × All IsAccepted raw
        × IsPaired (Dict.get total_key raw) (Dict.get tool_key raw)
        × FitsLease (Dict.get total_key raw) lease
        × (raw ≡ limits))
unfolding validate_execution_limits validate_known
validate_execution_limits_iff raw limits lease = (
  λ h. elim (Bool-cases (every (λ p. contains p.0 deployment_limit_keys) raw)) [
    | inr unknown ↦ absurd (ground arith)
    | inl known ↦
        let v : validate_known raw lease ≡ ok limits = ground arith in
        let (l, hl, h1) = bind-ok (checked_values raw) _ limits v in
        let (_, hp, h2) =
          bind-ok (check_pair (Dict.get total_key l) (Dict.get tool_key l)) _ limits h1 in
        let (_, ht, h3) = bind-ok (check_total (Dict.get total_key l) lease) _ limits h2 in
        let (accs, same) = (checked_values_iff raw l).0 hl in
        let e : l ≡ limits = ground arith in
        (
          known,
          accs,
          subst (λ d. IsPaired (Dict.get total_key d) (Dict.get tool_key d)) (sym same)
              ((check_pair_iff _ _).0 hp),
          subst (λ d. FitsLease (Dict.get total_key d) lease) (sym same)
              ((check_total_iff _ lease).0 ht),
          same ∙ e,
        )
  ],
  λ (known, accs, paired, fits, same). ground (
    arith,
    (checked_values_iff raw raw).1 (accs, refl),
    (check_pair_iff (Dict.get total_key raw) (Dict.get tool_key raw)).1 paired,
    (check_total_iff (Dict.get total_key raw) lease).1 fits,
  ),
)
