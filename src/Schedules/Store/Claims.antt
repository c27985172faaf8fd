-- ===== src/Schedules/Store/Claims.antt =====
-- `claim_due` of schedules.py, against the rows of all subjects.
use agents_system.Prelude.{
  ℕ, ◌≤◌, ◌<◌, ◌==◌, ◌&&◌, some, String, string_eq, pair_eq, List, [], ◌∷◌, if◌then◌else◌, ◌≡◌,
  refl, ◌∙◌, sym, ap, subst, ◌⊎◌, inl, inr, arith, keep_if, All,
}
use agents_system.Dict
use agents_system.Dict.Laws.{get-put}
use agents_system.Scope
use agents_system.Scope.{Subject}
use agents_system.Scope.Isolation.{view, view-put}
use agents_system.Schedules.Recurrence.{Recurrence, every_day, every_week, every, following}
use agents_system.Schedules.Recurrence.Windows.{IsInRange, next_after-IsNext, following_grid}
use agents_system.Schedules.Store.{
  schedules_table, Schedule, Store, Row, is_due, least, Claim, idle, claimed, move_to, claim_from,
  claim_due, advance,
}
use agents_system.Schedules.Store.Least.{
  IsIn, IsIn-keep_if, least-IsIn, IsLeast, least-IsLeast, IsLeast-all, none_due, All-IsIn,
}

following_later :
    (r : Recurrence) (due now : ℕ)
    → IsInRange r
    → (t : ℕ) × (following r due now ≡ some t) × (now < t)
unfolding following
following_later (every_day at zone) due now h =
    let (t, e, lt, first) = next_after-IsNext (every_day at zone) now h in (t, e, lt)
following_later (every_week at weekday zone) due now h =
    let (t, e, lt, first) = next_after-IsNext (every_week at weekday zone) now h in (t, e, lt)
following_later (every n) due now h =
    let (t, e, lt, grid, first) = following_grid n due now h in (t, e, lt)

-- The store with the row's schedule moved to its next window.
abbrev pub moved_store : Row → ℕ → Store → Store
moved_store row next store =
    Scope.put (row.0, row.1) schedules_table row.3.id (record row.3 { next_run_at = next }) store

-- A run of the row: it is due, no row of any subject is due earlier, and its schedule is left at the
-- next window of its recurrence, which is after the instant of the claim.
abbrev pub IsRun : ℕ → Store → Claim → Row → ℕ → Type 0
IsRun now store claim row next =
    IsIn row (Scope.all_rows schedules_table store)
    × IsLeast row.3.next_run_at (Scope.all_rows schedules_table store)
    × (row.3.next_run_at ≤ now)
    × (following row.3.recurrence row.3.next_run_at now ≡ some next)
    × (now < next)
    × (claim
        ≡ claimed (record row.3 { next_run_at = next }) row.3.next_run_at
            (moved_store row next store))

claim_from_candidates :
    (now : ℕ) (store : Store) (candidates : List Row)
    → keep_if (is_due now) (Scope.all_rows schedules_table store) ≡ candidates
    → All (λ r. IsInRange r.3.recurrence) (Scope.all_rows schedules_table store)
    → ((claim_from advance now candidates store ≡ idle)
        × All (λ r. now < r.3.next_run_at) (Scope.all_rows schedules_table store))
      ⊎ ((row : Row) × (next : ℕ) × IsRun now store
            (claim_from advance now candidates store)
            row
            next)
unfolding claim_from advance move_to
claim_from_candidates now store [] e a =
    inl (refl, none_due now (Scope.all_rows schedules_table store) e)
claim_from_candidates now store (r ∷ rest) e a =
    let rows = Scope.all_rows schedules_table store in
    let row = least r rest in
    let (held, due) =
      IsIn-keep_if (is_due now) row rows (subst (IsIn row) (sym e) (least-IsIn r rest)) in
    let le : row.3.next_run_at ≤ now = unfold is_due in ground arith in
    let (next, f, later) =
      following_later row.3.recurrence row.3.next_run_at now
        (All-IsIn (λ r. IsInRange r.3.recurrence) row rows a held) in
    let first =
      IsLeast-all row.3.next_run_at now rows le
        (subst (IsLeast row.3.next_run_at) (sym e) (least-IsLeast r rest)) in
    inr (row, next, (held, first, le, f, later, ap (λ o. move_to o row store) f))

-- Where every stored recurrence is in range, a claim never raises: it finds nothing exactly where
-- every schedule of every subject is due later, and otherwise runs a due schedule than which none is
-- due earlier, and leaves it at the next window of its recurrence, after the instant of the claim.
pub claim_due_first :
    (now : ℕ) (store : Store)
    → All (λ r. IsInRange r.3.recurrence) (Scope.all_rows schedules_table store)
    → ((claim_due advance now store ≡ idle)
        × All (λ r. now < r.3.next_run_at) (Scope.all_rows schedules_table store))
      ⊎ ((row : Row) × (next : ℕ) × IsRun now store (claim_due advance now store) row next)
unfolding claim_due
claim_due_first now store a = claim_from_candidates now store _ refl a

-- What a run leaves for every subject to read.
view-moved_store :
    (row : Row) (next : ℕ) (store : Store) (t : Subject) (table id : String)
    → Dict.get id (view t table (moved_store row next store)) ≡ (
        if (row.0, row.1) == t && schedules_table == table && row.3.id == id
        then some (record row.3 { next_run_at = next })
        else Dict.get id (view t table store))
view-moved_store row next store t table id = ground (
  arith,
  view-put (row.0, row.1) t schedules_table table row.3.id (record row.3 { next_run_at = next })
      store,
  get-put row.3.id id (record row.3 { next_run_at = next })
      (view (row.0, row.1) schedules_table store),
)

-- Where every schedule stands under its own id, a claim takes a stored row that was due and writes it
-- back for its own subject, under its own key, with nothing changed but its window, which is then
-- after the instant of the claim: the claimed window is not there to be claimed again. Nothing else
-- that any subject reads of any table changes.
pub claim_due_once :
    (now : ℕ) (store : Store) (moved : Schedule) (due : ℕ) (after : Store)
    → All (λ r. IsInRange r.3.recurrence) (Scope.all_rows schedules_table store)
    → All (λ r. r.2 ≡ r.3.id) (Scope.all_rows schedules_table store)
    → claim_due advance now store ≡ claimed moved due after
    → (row : Row) × IsIn row (Scope.all_rows schedules_table store)
      × (due ≡ row.3.next_run_at)
      × (due ≤ now)
      × (moved ≡ record row.3 { next_run_at = moved.next_run_at })
      × (now < moved.next_run_at)
      × ((t : Subject) (table id : String)
          → Dict.get id (view t table after) ≡ (
              if (row.0, row.1) == t && schedules_table == table && row.2 == id
              then some moved
              else Dict.get id (view t table store)))
claim_due_once now store moved due after a keyed h = elim (claim_due_first now store a) [
  | inl (nothing, _) ↦ absurd (ground arith)
  | inr (row, next, (held, _, le, _, later, run)) ↦
      let e : claimed moved due after
          ≡ claimed (record row.3 { next_run_at = next }) row.3.next_run_at
              (moved_store row next store) =
        sym h ∙ run in
      let same : moved ≡ record row.3 { next_run_at = next } = ground arith in
      let at : due ≡ row.3.next_run_at = ground arith in
      let left : after ≡ moved_store row next store = ground arith in
      let key : row.2 ≡ row.3.id =
        All-IsIn (λ (r : Row). r.2 ≡ r.3.id) row (Scope.all_rows schedules_table store) keyed
          held in
      (
        row,
        held,
        at,
        (omega arith),
        subst (λ (m : Schedule). m ≡ record row.3 { next_run_at = m.next_run_at }) (sym same) refl,
        subst (λ (m : Schedule). now < m.next_run_at) (sym same) later,
        λ t table id. rw left (rw same (rw key (view-moved_store row next store t table id))),
      )
]
