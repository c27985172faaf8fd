-- ===== src/Usage/Caps.antt =====
-- The budget caps of usage.py: `validate` and `reached_cap`.
use agents_system.Prelude.{
  ℕ, string_eq, pair_eq, zero, suc, ap, bind-ok, ◌≤◌, ◌<◌, Bool, true, false, ◌||◌, Option, none,
  some, List, [], ◌∷◌, ◌++◌, ok, ◌≡◌, refl, ◌↔◌, inl, inr, arith, leb, All, Bool-cases,
}
use agents_system.Dict
use agents_system.Scope.Isolation.{view}
use agents_system.Usage.Totals.{totals-put_record}
use agents_system.Scope.{Store, Subject}
use agents_system.Usage.{
  Cap, unset, negative, not_finite, not_a_number, amount, BudgetCaps, check_cap, validate, CapName,
  daily_usd, monthly_usd, daily_tokens, monthly_tokens, limit_of, first_reached, checks_of,
  UsageTotals, usage_table, put_record, UsageRecord, totals, reached_cap, day_start,
}

-- A check whose cap is not set, or is above the use.
abbrev pub IsBelow : CapName × Option ℕ × ℕ → Type 0
IsBelow (name, none, used) = Unit
IsBelow (name, some limit, used) = used < limit

first_reached-none :
    (checks : List (CapName × Option ℕ × ℕ)) → first_reached checks ≡ none ↔ All IsBelow checks
unfolding first_reached
first_reached-none [] = (λ h. tt, λ h. refl)
first_reached-none ((name, none, used) ∷ checks) =
    let (f, g) = first_reached-none checks in (λ h. (tt, f h), λ h. g h.1)
first_reached-none ((name, some limit, used) ∷ checks) =
    let (f, g) = first_reached-none checks in
    (λ h. (ground arith, f (ground arith)), λ (h, t). let e = g t in ground arith)

first_reached-some :
    (name : CapName) (limit used : ℕ) (checks : List (CapName × Option ℕ × ℕ))
    → first_reached checks ≡ some (name, limit, used)
    → (before after : List (CapName × Option ℕ × ℕ)) × (checks
        ≡ before ++ (name, some limit, used) ∷ after)
      × All IsBelow before
      × (limit ≤ used)
unfolding first_reached
first_reached-some name limit used [] h = absurd (cc)
first_reached-some name limit used ((n, none, u) ∷ checks) h =
    let (before, after, e, below, le) = first_reached-some name limit used checks h in
    ((n, none, u) ∷ before, after, ap (λ t. (n, none, u) ∷ t) e, (tt, below), le)
first_reached-some name limit used ((n, some l, u) ∷ checks) h = elim (Bool-cases (leb l u)) [
  | inl reached ↦
      let e : n ≡ name = ground arith in
      let f : l ≡ limit = ground arith in
      let g : u ≡ used = ground arith in
      ([], checks, ap (λ x. x ∷ checks) (λ i. (e i, some (f i), g i)), tt, ground arith)
  | inr not_reached ↦
      let (before, after, e, below, le) =
        first_reached-some name limit used checks (ground arith) in
      ((n, some l, u) ∷ before, after, ap (λ t. (n, some l, u) ∷ t) e, (ground arith, below), le)
]

-- A cap that `validate` passes: not set, or a number above zero.
abbrev pub IsLimit : Cap → Type 0
IsLimit unset = Unit
IsLimit (amount n) = 0 < n
IsLimit _ = ⊥

abbrev pub is_set : Cap → Bool
is_set unset = false
is_set _ = true

check_cap_iff : (cap : Cap) (b : Bool) → check_cap cap ≡ ok b ↔ (IsLimit cap × (is_set cap ≡ b))
unfolding check_cap
check_cap_iff unset b = (λ h. (tt, ground arith), λ h. ground arith)
check_cap_iff (amount zero) b = (λ h. absurd (cc), λ h. absurd (omega (arith, h.0)))
check_cap_iff (amount (suc n)) b = (λ h. (omega arith, ground arith), λ h. ground arith)
check_cap_iff negative b = (λ h. absurd (cc), λ h. absurd h.0)
check_cap_iff not_finite b = (λ h. absurd (cc), λ h. absurd h.0)
check_cap_iff not_a_number b = (λ h. absurd (cc), λ h. absurd h.0)

-- `validate` passes exactly the caps of which one at least is set and every one that is set is a
-- finite number above zero.
pub validate_iff :
    (caps : BudgetCaps)
    → validate caps ≡ ok tt ↔ (
        IsLimit caps.daily_usd
        × IsLimit caps.monthly_usd
        × IsLimit caps.daily_tokens
        × IsLimit caps.monthly_tokens
        × ((is_set caps.daily_usd
              || is_set caps.monthly_usd
              || is_set caps.daily_tokens
              || is_set caps.monthly_tokens)
            ≡ true))
unfolding validate
validate_iff caps = (
  λ h.
      let (a, d, h1) = bind-ok (check_cap caps.daily_usd) _ tt h in
      let (b, m, h2) = bind-ok (check_cap caps.monthly_usd) _ tt h1 in
      let (c, t, h3) = bind-ok (check_cap caps.daily_tokens) _ tt h2 in
      let (e, u, h4) = bind-ok (check_cap caps.monthly_tokens) _ tt h3 in
      let (ld, sd) = (check_cap_iff caps.daily_usd a).0 d in
      let (lm, sm) = (check_cap_iff caps.monthly_usd b).0 m in
      let (lt, st) = (check_cap_iff caps.daily_tokens c).0 t in
      let (lu, su) = (check_cap_iff caps.monthly_tokens e).0 u in (ld, lm, lt, lu, ground arith),
  λ (ld, lm, lt, lu, set). ground (
    arith,
    (check_cap_iff caps.daily_usd (is_set caps.daily_usd)).1 (ld, refl),
    (check_cap_iff caps.monthly_usd (is_set caps.monthly_usd)).1 (lm, refl),
    (check_cap_iff caps.daily_tokens (is_set caps.daily_tokens)).1 (lt, refl),
    (check_cap_iff caps.monthly_tokens (is_set caps.monthly_tokens)).1 (lu, refl),
  ),
)

-- The check refuses a turn with the first cap, in the order daily and monthly dollars, daily and
-- monthly tokens, that is set and not above the use; the caps before it are not reached.
pub reached_cap_first :
    (caps : BudgetCaps) (s : Subject) (pending : UsageTotals) (now month : ℕ)
    (store : Store UsageRecord) (name : CapName) (limit used : ℕ)
    → reached_cap caps s pending now month store ≡ some (name, limit, used)
    → (before after : List (CapName × Option ℕ × ℕ)) × (checks_of caps pending
          (totals s (day_start now) store)
          (totals s month store)
        ≡ before ++ (name, some limit, used) ∷ after)
      × All IsBelow before
      × (limit ≤ used)
unfolding reached_cap
reached_cap_first caps s pending now month store name limit used h =
    first_reached-some name limit used _ h

-- A turn passes the check exactly when each cap that is set is above what the subject used in its
-- window with what the running turn used.
pub reached_cap_iff :
    (caps : BudgetCaps) (s : Subject) (pending : UsageTotals) (now month : ℕ)
    (store : Store UsageRecord)
    → reached_cap caps s pending now month store ≡ none
      ↔ All IsBelow (checks_of caps pending (totals s (day_start now) store) (totals s month store))
unfolding reached_cap
reached_cap_iff caps s pending now month store = first_reached-none _

IsBelow-le :
    (name : CapName) (limit : Option ℕ) (u v : ℕ)
    → u ≤ v
    → IsBelow (name, limit, v)
    → IsBelow (name, limit, u)
IsBelow-le name none u v le h = tt
IsBelow-le name (some limit) u v le h = omega arith

-- No recorded turn takes anything off a total.
totals-grow :
    (r : UsageRecord) (s : Subject) (since : ℕ) (store : Store UsageRecord)
    → Dict.get r.id (view (r.runtime_id, r.subject_key) usage_table store) ≡ none
    → ((totals s since store).cost_usd ≤ (totals s since (put_record r store)).cost_usd)
      × ((totals s since store).tokens ≤ (totals s since (put_record r store)).tokens)
totals-grow r s since store fresh =
    let e = totals-put_record r s since store fresh in (ground arith, ground arith)

-- A record never lifts a refusal: a turn that passes the check after another turn of any subject was
-- recorded, under an id that the subject of that turn did not have, passed it before.
pub reached_cap-put_record :
    (caps : BudgetCaps) (s : Subject) (pending : UsageTotals) (now month : ℕ) (r : UsageRecord)
    (store : Store UsageRecord)
    → Dict.get r.id (view (r.runtime_id, r.subject_key) usage_table store) ≡ none
    → reached_cap caps s pending now month (put_record r store) ≡ none
    → reached_cap caps s pending now month store ≡ none
unfolding checks_of
reached_cap-put_record caps s pending now month r store fresh passes =
    let below = (reached_cap_iff caps s pending now month (put_record r store)).0 passes in
    let daily = totals-grow r s (day_start now) store fresh in
    let monthly = totals-grow r s month store fresh in
    let (d, (m, (dt, (mt, _)))) = below in
    (reached_cap_iff caps s pending now month store).1 (
      IsBelow-le daily_usd (limit_of caps.daily_usd) _ _ (omega (arith, daily.0)) d,
      (
        IsBelow-le monthly_usd (limit_of caps.monthly_usd) _ _ (omega (arith, monthly.0)) m,
        (
          IsBelow-le daily_tokens (limit_of caps.daily_tokens) _ _ (omega (arith, daily.1)) dt,
          (
            IsBelow-le monthly_tokens (limit_of caps.monthly_tokens) _ _ (omega (arith, monthly.1))
                mt,
            tt,
          ),
        ),
      ),
    )
