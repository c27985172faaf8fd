-- ===== src/ExecutionLimits.antt =====
-- The limits that a deployment sets per runtime: execution_limits.py. A number is a Python int or a
-- finite float; a float's amount is in millionths, so sums are exact where floats round.
pub mod Lease
use agents_system.Prelude.{
  ℕ, zero, suc, ◌+◌, ◌*◌, Bool, true, false, not, Option, none, some, String, string_eq, List, [],
  ◌∷◌, if◌then◌else◌, Result, ok, err, ◌>>=◌, ◌>>◌, ltb, leb, contains, every,
}
use agents_system.Dict
use agents_system.Dict.{Dict}

-- A value as given: an int or a float from zero on, a number below zero, an infinity or a NaN, or no
-- number at all.
pub data Value : Type 0 where
  whole : ℕ → Value
  real : ℕ → Value
  negative not_finite not_a_number : Value

-- The amount of a value in millionths.
unfoldable pub millionths : Value → ℕ
millionths (whole n) = n * 1_000_000
millionths (real n) = n
millionths _ = 0

abbrev pub seconds : ℕ → ℕ
seconds n = n * 1_000_000

abbrev pub lease_margin : ℕ
lease_margin = seconds 60

abbrev pub reply_send_allowance : ℕ
reply_send_allowance = seconds 20

abbrev pub total_key : String
total_key = "total_execution_timeout_s"

abbrev pub tool_key : String
tool_key = "tool_call_timeout_s"

abbrev pub deployment_limit_keys : List String
deployment_limit_keys = total_key ∷ tool_key ∷ "max_tool_calls" ∷ "max_tool_errors" ∷ []

abbrev pub whole_number_keys : List String
whole_number_keys = "max_tool_calls" ∷ "max_tool_errors" ∷ []

pub data LimitError : Type 0 where
  does_not_fit_lease checkpointer_too_slow tool_above_total not_a_mapping unknown_key : LimitError
  must_be_positive must_be_whole : String → LimitError

unfoldable pub check_turn_fits_lease : ℕ → ℕ → Result LimitError (Unit {0})
check_turn_fits_lease total lease =
    if leb lease (total + lease_margin) then err does_not_fit_lease else ok tt

unfoldable pub check_margin_covers_checkpointer : ℕ → Result LimitError (Unit {0})
check_margin_covers_checkpointer timeout =
    if ltb lease_margin (2 * timeout + reply_send_allowance)
    then err checkpointer_too_slow
    else ok tt

-- `check_effective_limits`, for the two times of the effective limits
unfoldable pub check_effective_limits : ℕ → ℕ → ℕ → Result LimitError (Unit {0})
unfolding check_turn_fits_lease
check_effective_limits total tool lease =
    if ltb total tool then err tool_above_total else check_turn_fits_lease total lease

-- `_checked_value`
unfoldable pub checked_value : String → Value → Result LimitError Value
checked_value key (whole zero) = err (must_be_positive key)
checked_value key (whole (suc n)) = ok (whole (suc n))
checked_value key (real zero) = err (must_be_positive key)
checked_value key (real (suc n)) =
    if contains key whole_number_keys then err (must_be_whole key) else ok (real (suc n))
checked_value key _ = err (must_be_positive key)

unfoldable pub checked_values : Dict String Value → Result LimitError (Dict String Value)
checked_values [] = ok []
checked_values ((key, value) ∷ raw) = do
  v ← checked_value key value
  rest ← checked_values raw
  ok ((key, v) ∷ rest)

unfoldable pub check_pair : Option Value → Option Value → Result LimitError (Unit {0})
check_pair (some total) (some tool) =
    if ltb (millionths total) (millionths tool) then err tool_above_total else ok tt
check_pair _ _ = ok tt

unfoldable pub check_total : Option Value → ℕ → Result LimitError (Unit {0})
unfolding check_turn_fits_lease
check_total (some total) lease = check_turn_fits_lease (millionths total) lease
check_total none lease = ok tt

-- What is given for a runtime: nothing, something that is no mapping, or a mapping.
pub data Given : Type 0 where
  nothing other : Given
  mapping : Dict String Value → Given

-- the checks of a mapping whose keys are known
unfoldable pub validate_known : Dict String Value → ℕ → Result LimitError (Dict String Value)
unfolding checked_values check_pair check_total
validate_known raw lease = do
  limits ← checked_values raw
  check_pair (Dict.get total_key limits) (Dict.get tool_key limits)
  check_total (Dict.get total_key limits) lease
  ok limits

unfoldable pub validate_execution_limits : Given → ℕ → Result LimitError (Dict String Value)
unfolding validate_known
validate_execution_limits nothing lease = ok []
validate_execution_limits other lease = err not_a_mapping
validate_execution_limits (mapping raw) lease =
    if every (λ p. contains p.0 deployment_limit_keys) raw
    then validate_known raw lease
    else err unknown_key
