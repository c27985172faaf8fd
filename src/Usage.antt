-- ===== src/Usage.antt =====
-- The usage ledger and the budget caps: usage.py. An instant is a number of microseconds since the
-- epoch and an amount of money a number of billionths of a dollar, so sums are exact where the
-- program's floats round. The start of the calendar month is an argument. A record's id is what
-- `uuid4` drew.
pub mod Totals
pub mod Deletion
pub mod Caps
use agents_system.Prelude.{
  ℕ, zero, suc, ◌+◌, ◌-◌, ◌%◌, ◌==◌, Bool, true, false, ◌||◌, not, Option, none, some, String,
  string_eq, List, [], ◌∷◌, if◌then◌else◌, Result, ok, err, ◌>>=◌, ◌>>◌, ltb, leb, keep_if,
  count_if, sum_of, length, map,
}
use agents_system.Dict
use agents_system.Dict.{Dict}
use agents_system.Scope
use agents_system.Scope.{Store, Subject}

-- A cap as configured: absent, a number below zero, a finite number from zero on, an infinity or a
-- NaN, or no number at all.
pub data Cap : Type 0 where
  unset negative not_finite not_a_number : Cap
  amount : ℕ → Cap

pub record BudgetCaps : Type 0 where
  pub daily_usd : Cap
  pub monthly_usd : Cap
  pub daily_tokens : Cap
  pub monthly_tokens : Cap
  pub message : String

pub data BudgetError : Type 0 where
  must_be_a_number must_be_finite must_be_positive sets_no_cap : BudgetError

-- one round of the loop of `validate`: whether the cap is set
unfoldable pub check_cap : Cap → Result BudgetError Bool
check_cap unset = ok false
check_cap not_a_number = err must_be_a_number
check_cap not_finite = err must_be_finite
check_cap negative = err must_be_positive
check_cap (amount zero) = err must_be_positive
check_cap (amount (suc _)) = ok true

unfoldable pub validate : BudgetCaps → Result BudgetError (Unit {0})
unfolding check_cap
validate caps = do
  a ← check_cap caps.daily_usd
  b ← check_cap caps.monthly_usd
  c ← check_cap caps.daily_tokens
  d ← check_cap caps.monthly_tokens
  if a || b || c || d then ok tt else err sets_no_cap

unfoldable pub has_usd_cap : BudgetCaps → Bool
has_usd_cap caps = is_set caps.daily_usd || is_set caps.monthly_usd
  where
    is_set : Cap → Bool
    is_set unset = false
    is_set _ = true

pub record UsageRecord : Type 0 where
  pub runtime_id : String
  pub subject_key : String
  pub actor : Option String
  pub model_id : Option String
  pub input_tokens : Option ℕ
  pub output_tokens : Option ℕ
  pub total_tokens : Option ℕ
  pub cost_usd : Option ℕ
  pub model_calls : Option ℕ
  pub tool_calls : ℕ
  pub timed_out : Bool
  pub occurred_at : ℕ
  pub id : String

unfoldable pub priced : UsageRecord → Bool
priced r = elim r.cost_usd [ some _ ↦ true | none ↦ false ]

pub record UsageTotals : Type 0 where
  pub tokens : ℕ
  pub cost_usd : ℕ
  pub turns : ℕ
  pub unpriced_turns : ℕ

-- `x or 0`
unfoldable pub or_zero : Option ℕ → ℕ
or_zero none = 0
or_zero (some n) = n

unfoldable pub totals_of : List UsageRecord → UsageTotals
unfolding or_zero
totals_of records = record {
  tokens = sum_of (λ r. or_zero r.total_tokens) records;
  cost_usd = sum_of (λ r. or_zero r.cost_usd) records;
  turns = length records;
  unpriced_turns = count_if (λ r. not (priced r)) records;
}

abbrev pub usage_table : String
usage_table = "subject_usage"

-- `InMemoryUsageLedger.record`
unfoldable pub put_record : UsageRecord → Store UsageRecord → Store UsageRecord
put_record r store = Scope.put (r.runtime_id, r.subject_key) usage_table r.id r store

-- `sorted(..., key=lambda r: r.occurred_at)`, which keeps the order of equal keys
unfoldable pub insert_sorted : UsageRecord → List UsageRecord → List UsageRecord
insert_sorted r [] = r ∷ []
insert_sorted r (x ∷ xs) =
    if ltb r.occurred_at x.occurred_at then r ∷ x ∷ xs else x ∷ insert_sorted r xs

unfoldable pub sort_from : List UsageRecord → List UsageRecord → List UsageRecord
sort_from done [] = done
sort_from done (r ∷ rs) = sort_from (insert_sorted r done) rs

-- `since is None or r.occurred_at >= since`
unfoldable pub is_since : Option ℕ → UsageRecord → Bool
is_since none r = true
is_since (some since) r = leb since r.occurred_at

-- The empty entry that a read leaves for a subject without one is not kept: no read shows it.
unfoldable pub query : Subject → Option ℕ → Store UsageRecord → List UsageRecord
unfolding sort_from
query s since store =
    sort_from [] (keep_if (is_since since) (Dict.values (Scope.rows s usage_table store).0))

unfoldable pub totals : Subject → ℕ → Store UsageRecord → UsageTotals
totals s since store = totals_of (query s (some since) store)

-- `InMemoryUsageLedger.delete`: the rows of the subject, key by key, and how many they were
unfoldable pub delete_keys : Subject → List String → Store UsageRecord → Store UsageRecord
delete_keys s [] store = store
delete_keys s (k ∷ ks) store = delete_keys s ks (Scope.delete s usage_table k store)

unfoldable pub delete : Subject → Store UsageRecord → ℕ × Store UsageRecord
delete s store =
    let (held, touched) = Scope.rows s usage_table store in
    (length held, delete_keys s (Dict.keys held) touched)

abbrev pub day : ℕ
day = 86_400_000_000

-- The start of the UTC day. The month's is the calendar's.
unfoldable pub day_start : ℕ → ℕ
day_start now = now - now % day

pub data CapName : Type 0 where
  daily_usd monthly_usd daily_tokens monthly_tokens : CapName

-- What a cap that `validate` accepts limits the use to: `reached_cap` is modelled on those.
unfoldable pub limit_of : Cap → Option ℕ
limit_of (amount n) = some n
limit_of _ = none

-- the loop over `checks`: the first cap that is set and reached
unfoldable pub first_reached : List (CapName × Option ℕ × ℕ) → Option (CapName × ℕ × ℕ)
first_reached [] = none
first_reached ((name, none, used) ∷ checks) = first_reached checks
first_reached ((name, some limit, used) ∷ checks) =
    let rest = first_reached checks in if leb limit used then some (name, limit, used) else rest

unfoldable pub checks_of :
    BudgetCaps → UsageTotals → UsageTotals → UsageTotals → List (CapName × Option ℕ × ℕ)
checks_of caps pending daily monthly =
    (daily_usd, limit_of caps.daily_usd, daily.cost_usd + pending.cost_usd)
    ∷ (monthly_usd, limit_of caps.monthly_usd, monthly.cost_usd + pending.cost_usd)
    ∷ (daily_tokens, limit_of caps.daily_tokens, daily.tokens + pending.tokens)
    ∷ (monthly_tokens, limit_of caps.monthly_tokens, monthly.tokens + pending.tokens)
    ∷ []

unfoldable pub reached_cap :
    BudgetCaps → Subject → UsageTotals → ℕ → ℕ → Store UsageRecord → Option (CapName × ℕ × ℕ)
reached_cap caps s pending now month_since store =
    first_reached
      (checks_of caps pending (totals s (day_start now) store) (totals s month_since store))
