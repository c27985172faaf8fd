-- ===== src/Schedules/Store.antt =====
-- The schedules of the subjects: `InMemoryScheduleBackend` and `InMemoryScheduleStore` of
-- schedules.py, over the per-user store. The id of a new schedule is what `uuid4` drew.
pub mod Least
pub mod Claims
pub mod Cap
use agents_system.Prelude.{
  ℕ, ◌+◌, ◌==◌, ◌&&◌, ◌||◌, Bool, true, false, Option, none, some, String, string_eq, nat_eq,
  pair_eq, List, [], ◌∷◌, if◌then◌else◌, ltb, leb, keep_if, length,
}
use Prim.Native.String.{compare}
use Prim.Native.Nat.{Ordering}
use agents_system.Dict
use agents_system.Scope
use agents_system.Scope.{Subject}
use agents_system.Schedules.Recurrence.{Recurrence, following}

abbrev pub schedules_table : String
schedules_table = "subject_schedules"

pub record Schedule : Type 0 where
  pub id : String
  pub runtime_id : String
  pub subject_key : String
  pub prompt : String
  pub recurrence : Recurrence
  pub next_run_at : ℕ
  pub created_at : ℕ
  pub last_run_at : Option ℕ
  pub last_status : Option String

abbrev pub Store : Type 0
Store = Scope.Store Schedule

-- `InMemoryScheduleBackend.add`
unfoldable pub add : Subject → ℕ → Schedule → Store → Bool × Store
add s max_per_user schedule store =
    let (held, touched) = Scope.rows s schedules_table store in
    if leb max_per_user (length held)
    then (false, touched)
    else (true, Scope.put s schedules_table schedule.id schedule touched)

-- `InMemoryScheduleBackend.remove`
unfoldable pub remove : Subject → String → Store → Bool × Store
remove s id store =
    let (held, touched) = Scope.rows s schedules_table store in
    (Dict.has id held, Scope.delete s schedules_table id touched)

abbrev pub Row : Type 0
Row = String × String × String × Schedule

-- `s.next_run_at <= now`
unfoldable pub is_due : ℕ → Row → Bool
is_due now row = leb row.3.next_run_at now

-- the order of the key of `min`
unfoldable pub is_before : Row → Row → Bool
is_before a b =
    ltb a.3.next_run_at b.3.next_run_at
    || a.3.next_run_at == b.3.next_run_at
      && (elim (compare a.3.id b.3.id) [ Ordering.lt ↦ true | _ ↦ false ])

-- `min`: the first of the least
unfoldable pub least : Row → List Row → Row
least best [] = best
least best (x ∷ xs) = least (if is_before x best then x else best) xs

-- What a claim answers: nothing is due, `advance` raised, or a run, with the store after it.
pub data Claim : Type 0 where
  idle raised : Claim
  claimed : (schedule : Schedule) (due_at : ℕ) (store : Store) → Claim

-- the claim of the chosen row
unfoldable pub move_to : Option ℕ → Row → Store → Claim
move_to none row store = raised
move_to (some next) row store =
    let schedule = row.3 in
    let moved : Schedule = record schedule { next_run_at = next } in
    claimed moved schedule.next_run_at
      (Scope.put (row.0, row.1) schedules_table schedule.id moved store)

unfoldable pub claim_from : (Schedule → ℕ → Option ℕ) → ℕ → List Row → Store → Claim
unfolding move_to
claim_from advance now [] store = idle
claim_from advance now (row ∷ rows) store =
    let first = least row rows in move_to (advance first.3 now) first store

-- `InMemoryScheduleStore.claim_due`
unfoldable pub claim_due : (Schedule → ℕ → Option ℕ) → ℕ → Store → Claim
claim_due advance now store =
    claim_from advance now (keep_if (is_due now) (Scope.all_rows schedules_table store)) store

-- what `run_once` passes as `advance`
unfoldable pub advance : Schedule → ℕ → Option ℕ
advance schedule at = following schedule.recurrence schedule.next_run_at at

-- `InMemoryScheduleStore.record`
unfoldable pub record_result : Subject → String → String → ℕ → Store → Store
record_result s id status now store =
    let (current, touched) = Scope.get s schedules_table id store in
    elim current [
      | none ↦ touched
      | some schedule ↦
          Scope.put s schedules_table id
            (record schedule { last_run_at = some now; last_status = some status }) touched
    ]
