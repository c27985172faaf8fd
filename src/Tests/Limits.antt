-- ===== src/Tests/Limits.antt =====
-- Limits that a deployment may set, and one that it may not.
use agents_system.Prelude.{
  ◌+◌, ◌≤◌, ◌<◌, true, String, string_eq, String_discrete, ℕ_discrete, [], ◌∷◌, ok, err, ◌≡◌, ◌↔◌,
  refl, contains, every, All,
}
use agents_system.Dict
use agents_system.Dict.{Dict}
use agents_system.ExecutionLimits
use agents_system.ExecutionLimits.{
  Value, whole, real, seconds, reply_send_allowance, total_key, tool_key, deployment_limit_keys,
  mapping, does_not_fit_lease, validate_execution_limits,
}
use agents_system.ExecutionLimits.Lease.{
  effective_lease, IsAccepted, IsPaired, FitsLease, validate_execution_limits_iff,
}

runs : Unit {0}
unfolding String_discrete ℕ_discrete Dict.get ExecutionLimits.millionths
    ExecutionLimits.check_turn_fits_lease ExecutionLimits.check_margin_covers_checkpointer
    ExecutionLimits.check_effective_limits ExecutionLimits.checked_value
    ExecutionLimits.checked_values ExecutionLimits.check_pair ExecutionLimits.check_total
    ExecutionLimits.validate_known ExecutionLimits.validate_execution_limits
runs = tt

abbrev raw : Dict String Value
raw = (total_key, whole 120) ∷ (tool_key, real 30_500_000) ∷ []

test_too_long :
    validate_execution_limits (mapping ((total_key, whole 540) ∷ [])) (seconds 600)
    ≡ err does_not_fit_lease
unfolding runs
test_too_long = refl

test_accepted : validate_execution_limits (mapping raw) (seconds 600) ≡ ok raw
unfolding runs
test_accepted = refl

validate_execution_limits_iff_example :
    validate_execution_limits (mapping raw) (seconds 600) ≡ ok raw ↔ (
      (every (λ p. contains p.0 deployment_limit_keys) raw ≡ true)
      × All IsAccepted raw
      × IsPaired (Dict.get total_key raw) (Dict.get tool_key raw)
      × FitsLease (Dict.get total_key raw) (seconds 600)
      × (raw ≡ raw))
validate_execution_limits_iff_example = validate_execution_limits_iff raw raw (seconds 600)

effective_lease_example :
    (seconds 10 ≤ seconds 60)
    × (seconds 20 + seconds 60 + seconds 20 + reply_send_allowance < seconds 600)
unfolding runs
effective_lease_example =
    effective_lease (seconds 60) (seconds 10) (seconds 20) (seconds 600) refl refl
