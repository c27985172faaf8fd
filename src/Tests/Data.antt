-- ===== src/Tests/Data.antt =====
-- Rows of two users of scope.py, and what they used by usage.py.
use agents_system.Prelude.{
  ℕ, ◌==◌, ◌&&◌, Bool, false, none, some, String, string_eq, pair_eq, String_discrete, ℕ_discrete,
  pair_discrete, [], ◌∷◌, if◌then◌else◌, ◌≡◌, refl, ltb, leb,
}
use agents_system.Dict
use agents_system.Dict.{Dict}
use agents_system.Scope
use agents_system.Scope.{Subject, Store}
use agents_system.Scope.Isolation.{view, view-put}
use agents_system.Usage
use agents_system.Usage.{UsageRecord, UsageTotals, BudgetCaps, CapName, unset, amount, usage_table}
use agents_system.Usage.Totals.{no_totals, add, totals-put_record}

runs : Unit {0}
unfolding pair_discrete Dict.get Dict.put Dict.pop String_discrete ℕ_discrete Scope.get_or_empty
    Scope.touch Scope.tables Scope.put_in Scope.put Scope.get Scope.rows Scope.delete_in
    Scope.delete Scope.all_rows Scope.expired_keys Scope.pop_all Scope.sweep_in Scope.sweep
    Usage.check_cap Usage.validate Usage.priced Usage.or_zero Usage.totals_of Usage.put_record
    Usage.insert_sorted Usage.sort_from Usage.is_since Usage.query Usage.totals Usage.delete_keys
    Usage.delete Usage.limit_of Usage.first_reached Usage.checks_of Usage.reached_cap
    Usage.day_start
runs = tt

abbrev pub anna : Subject
anna = ("sales", "participant:1")

abbrev pub bob : Subject
bob = ("sales", "participant:2")

abbrev two_rows : Store ℕ
two_rows = (anna, ("threads", ("a", 5) ∷ ("b", 20) ∷ []) ∷ []) ∷ []

test_isolated : view bob "threads" (Scope.put anna "threads" "a" 7 two_rows) ≡ []
unfolding runs
test_isolated = refl

view-put_example : view bob "threads" (Scope.put anna "threads" "c" 7 two_rows) ≡ (
    if ◌==◌ {A = Subject} anna bob && ◌==◌ {A = String} "threads" "threads"
    then Dict.put "c" 7 (view anna "threads" two_rows)
    else view bob "threads" two_rows)
view-put_example = view-put anna bob "threads" "threads" "c" 7 two_rows

abbrev is_old : ℕ → Bool
is_old n = ltb n 10

test_sweep :
    Scope.sweep "threads" is_old two_rows ≡ (1, (anna, ("threads", ("b", 20) ∷ []) ∷ []) ∷ [])
unfolding runs
test_sweep = refl

abbrev one_turn : UsageRecord
one_turn = record {
  runtime_id = "sales";
  subject_key = "participant:1";
  actor = none;
  model_id = some "m";
  input_tokens = some 900;
  output_tokens = some 100;
  total_tokens = some 1_000;
  cost_usd = none;
  model_calls = some 2;
  tool_calls = 1;
  timed_out = false;
  occurred_at = 50;
  id = "u1";
}

abbrev ledger : Store UsageRecord
ledger = Usage.put_record one_turn []

abbrev second_turn : UsageRecord
second_turn = record one_turn { id = "u2"; occurred_at = 40; cost_usd = some 7 }

abbrev caps : BudgetCaps
caps = record {
  daily_usd = amount 100;
  monthly_usd = unset;
  daily_tokens = amount 2_000;
  monthly_tokens = amount 5_000;
  message = "Limit reached.";
}

test_totals :
    Usage.totals anna 45 (Usage.put_record second_turn ledger)
    ≡ record { tokens = 1_000; cost_usd = 0; turns = 1; unpriced_turns = 1 }
unfolding runs
test_totals = refl

test_reached :
    Usage.reached_cap caps anna no_totals 0 0 (Usage.put_record second_turn ledger)
    ≡ some (CapName.daily_tokens, 2_000, 2_000)
unfolding runs
test_reached = refl

totals-put_record_example : Usage.totals anna 45 (Usage.put_record second_turn ledger) ≡ (
    if ◌==◌ {A = Subject} anna anna && leb 45 40
    then add second_turn (Usage.totals anna 45 ledger)
    else Usage.totals anna 45 ledger)
unfolding runs
totals-put_record_example = totals-put_record second_turn anna 45 ledger refl
