-- ===== src/Schedules/Store/Least.antt =====
-- The choice of the earliest due schedule in `claim_due` of schedules.py.
use agents_system.Prelude.{
  ℕ, ◌≤◌, ◌<◌, Bool, true, false, string_eq, pair_eq, List, [], ◌∷◌, ◌≡◌, refl, sym, subst, inl,
  inr, arith, keep_if, All, Some, Bool-cases,
}
use agents_system.Schedules.Store.{Row, is_due, is_before, least}

-- The row is one of the list.
abbrev pub IsIn : Row → List Row → Type 0
IsIn row = Some (λ r. r ≡ row)

pub IsIn-keep_if :
    (p : Row → Bool) (row : Row) (rows : List Row)
    → IsIn row (keep_if p rows)
    → IsIn row rows × (p row ≡ true)
IsIn-keep_if p row [] h = absurd h
IsIn-keep_if p row (r ∷ rows) h = elim (Bool-cases (p r)) [
  | inl kept ↦
      let e : keep_if p (r ∷ rows) ≡ r ∷ keep_if p rows = ground arith in
      elim (subst (IsIn row) e h) [
        | inl same ↦ (inl same, subst (λ x. p x ≡ true) same kept)
        | inr there ↦ let (m, t) = IsIn-keep_if p row rows there in (inr m, t)
      ]
  | inr dropped ↦
      let e : keep_if p (r ∷ rows) ≡ keep_if p rows = ground arith in
      let (m, t) = IsIn-keep_if p row rows (subst (IsIn row) e h) in (inr m, t)
]

pub least-IsIn : (best : Row) (rows : List Row) → IsIn (least best rows) (best ∷ rows)
unfolding least
least-IsIn best [] = inl refl
least-IsIn best (r ∷ rows) = elim (Bool-cases (is_before r best)) [
  | inl before ↦
      let e : least best (r ∷ rows) ≡ least r rows = ground arith in
      subst (λ y. IsIn y (best ∷ r ∷ rows)) (sym e) (inr (least-IsIn r rows))
  | inr after ↦
      let e : least best (r ∷ rows) ≡ least best rows = ground arith in
      subst (λ y. IsIn y (best ∷ r ∷ rows)) (sym e)
        (elim (least-IsIn best rows) [ inl same ↦ inl same | inr there ↦ inr (inr there) ])
]

-- No row has an earlier window.
abbrev pub IsLeast : ℕ → List Row → Type 0
IsLeast due = All (λ r. due ≤ r.3.next_run_at)

is_before_le :
    (a b : Row)
    → (is_before a b ≡ true → a.3.next_run_at ≤ b.3.next_run_at)
      × (is_before a b ≡ false → b.3.next_run_at ≤ a.3.next_run_at)
unfolding is_before
is_before_le a b = (λ h. ground arith, λ h. ground arith)

pub least-IsLeast :
    (best : Row) (rows : List Row) → IsLeast (least best rows).3.next_run_at (best ∷ rows)
unfolding least
least-IsLeast best [] = (omega arith, tt)
least-IsLeast best (r ∷ rows) = elim (Bool-cases (is_before r best)) [
  | inl before ↦
      let e : least best (r ∷ rows) ≡ least r rows = ground arith in
      let (le, a) = least-IsLeast r rows in
      subst (λ y. IsLeast y.3.next_run_at (best ∷ r ∷ rows)) (sym e)
        (omega (arith, (is_before_le r best).0 before), (le, a))
  | inr after ↦
      let e : least best (r ∷ rows) ≡ least best rows = ground arith in
      let (le, a) = least-IsLeast best rows in
      subst (λ y. IsLeast y.3.next_run_at (best ∷ r ∷ rows)) (sym e)
        (le, (omega (arith, (is_before_le r best).1 after), a))
]

-- The least of the due rows is the least of all.
pub IsLeast-all :
    (due now : ℕ) (rows : List Row)
    → due ≤ now
    → IsLeast due (keep_if (is_due now) rows)
    → IsLeast due rows
unfolding is_due
IsLeast-all due now [] le a = tt
IsLeast-all due now (r ∷ rows) le a = elim (Bool-cases (is_due now r)) [
  | inl kept ↦
      let e : keep_if (is_due now) (r ∷ rows) ≡ r ∷ keep_if (is_due now) rows = ground arith in
      let (h, t) = subst (IsLeast due) e a in (h, IsLeast-all due now rows le t)
  | inr dropped ↦
      let e : keep_if (is_due now) (r ∷ rows) ≡ keep_if (is_due now) rows = ground arith in
      (ground arith, IsLeast-all due now rows le (subst (IsLeast due) e a))
]

pub none_due :
    (now : ℕ) (rows : List Row)
    → keep_if (is_due now) rows ≡ []
    → All (λ r. now < r.3.next_run_at) rows
unfolding is_due
none_due now [] h = tt
none_due now (r ∷ rows) h = (ground arith, none_due now rows (ground arith))

pub All-IsIn : (P : Row → Type 0) (row : Row) (rows : List Row) → All P rows → IsIn row rows → P row
All-IsIn P row [] a h = absurd h
All-IsIn P row (r ∷ rows) (h, a) (inl same) = subst P same h
All-IsIn P row (r ∷ rows) (h, a) (inr there) = All-IsIn P row rows a there
