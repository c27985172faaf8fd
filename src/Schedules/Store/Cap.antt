-- ===== src/Schedules/Store/Cap.antt =====
-- The cap on a user's schedules in `add` of schedules.py.
use agents_system.Prelude.{
  ℕ, ◌+◌, ◌==◌, ◌&&◌, none, string_eq, pair_eq, if◌then◌else◌, ◌≡◌, ap, ◌∙◌, ltb, arith, leb,
  length, Bool-cases, inl, inr,
}
use agents_system.Dict
use agents_system.Dict.Laws.{length-put_absent}
use agents_system.Scope
use agents_system.Scope.{Subject}
use agents_system.Scope.Isolation.{view, view-put, view-read}
use agents_system.Schedules.Store.{schedules_table, Schedule, Store, add}

-- How many schedules a subject holds.
abbrev pub held : Subject → Store → ℕ
held s store = length (view s schedules_table store)

-- A schedule under a new id is accepted exactly while its subject holds fewer than the cap, and is
-- then one more for that subject. A refused one adds nothing, and no other subject's count changes.
pub add_cap :
    (s t : Subject) (max_per_user : ℕ) (schedule : Schedule) (store : Store)
    → Dict.get schedule.id (view s schedules_table store) ≡ none
    → ((add s max_per_user schedule store).0 ≡ ltb (held s store) max_per_user)
      × (held t (add s max_per_user schedule store).1
          ≡ (if s == t && ltb (held s store) max_per_user then held s store + 1 else held t store))
unfolding add
add_cap s t max_per_user schedule store fresh =
    let touched = (Scope.rows s schedules_table store).1 in
    let same : view s schedules_table touched ≡ view s schedules_table store =
      (view-read s s schedules_table schedules_table "" store).0 in
    let others : view t schedules_table touched ≡ view t schedules_table store =
      (view-read s t schedules_table schedules_table "" store).0 in
    let put = view-put s t schedules_table schedules_table schedule.id schedule touched in
    let grown =
      length-put_absent schedule.id schedule (view s schedules_table touched)
        (ap (Dict.get schedule.id) same ∙ fresh) in
    elim (Bool-cases (leb max_per_user (held s store))) [
      | inl full ↦ (ground arith, ground arith)
      | inr room ↦ (
        ground arith,
        elim (Bool-cases (s == t)) [ inl mine ↦ ground arith | inr other ↦ ground arith ],
      )
    ]
