-- ===== src/Tests/Retries.antt =====
-- A wrapper around a dropped connection, and a chain of causes that is a cycle.
use agents_system.Prelude.{
  ℕ, ◌==◌, nat_eq, string_eq, true, false, none, some, String_discrete, ℕ_discrete, [], ◌∷◌, ◌≡◌,
  refl, if◌then◌else◌,
}
use agents_system.Dict
use agents_system.RetryPolicy
use agents_system.RetryPolicy.{Failure, is_transient_failure, max_cause_depth}
use agents_system.RetryPolicy.Chain.{has_transient, is_transient_failure-has_transient}

runs : Unit {0}
unfolding String_discrete ℕ_discrete Dict.get RetryPolicy.names_of RetryPolicy.transient_by_name
    RetryPolicy.is_transient_one RetryPolicy.search RetryPolicy.is_transient_failure
runs = tt

abbrev wrapper : Failure
wrapper = record {
  is_network = false;
  status_code = none;
  classes = ("tools", "ToolFailed") ∷ ("builtins", "Exception") ∷ [];
  cause = some 1;
}

abbrev dropped : Failure
dropped = record {
  is_network = false;
  status_code = none;
  classes = ("httpx", "ReadError") ∷ [];
  cause = none;
}

abbrev wrapped : ℕ → Failure
wrapped id = if id == 0 then wrapper else dropped

-- Exception 1 is its own cause.
abbrev cycle : ℕ → Failure
cycle id = wrapper

test_wrapped : is_transient_failure wrapped 0 ≡ true
unfolding runs
test_wrapped = refl

test_cycle : is_transient_failure cycle 0 ≡ false
unfolding runs
test_cycle = refl

is_transient_failure-has_transient_example :
    is_transient_failure cycle 0 ≡ has_transient cycle max_cause_depth (some 0)
is_transient_failure-has_transient_example = is_transient_failure-has_transient cycle 0
