-- ===== src/Tests/Schedules.antt =====
-- A weekly schedule and an hourly one of schedules.py: created, claimed, moved on.
use agents_system.Prelude.{
  ℕ, ◌+◌, ◌*◌, ◌≤◌, ◌<◌, ◌==◌, ◌&&◌, ◌≡◌, refl, arith, Bool, none, some, String, [], All, string_eq,
  nat_eq, pair_eq, String_discrete, ℕ_discrete, pair_discrete, if◌then◌else◌, ltb, ◌⊎◌,
}
use agents_system.Dict
use agents_system.Scope
use agents_system.Scope.Isolation.{view}
use agents_system.Schedules.Recurrence
use agents_system.Schedules.Recurrence.{
  Recurrence, Fields, every_week, every, weekly, second, post_init, next_after, following,
}
use agents_system.Schedules.Recurrence.Windows.{IsNext, next_after-IsNext, following_grid}
use agents_system.Schedules.Store
use agents_system.Schedules.Store.{Schedule, Row, Claim, schedules_table}
use agents_system.Schedules.Store.Least.{IsIn}
use agents_system.Schedules.Store.Claims.{IsRun, moved_store, claim_due_first, claim_due_once}
use agents_system.Schedules.Store.Cap.{held, add_cap}
use agents_system.Tests.Data.{anna, bob}

runs : Unit {0}
unfolding pair_discrete String_discrete ℕ_discrete Dict.get Dict.put Scope.get_or_empty Scope.touch
    Scope.tables Scope.put_in Scope.put Scope.get Scope.rows Scope.all_rows Recurrence.zone_of
    Recurrence.check_weekday Recurrence.check_time Recurrence.check_interval Recurrence.post_init
    Recurrence.combine Recurrence.search Recurrence.next_after Recurrence.following Store.add
    Store.is_due Store.is_before Store.least Store.move_to Store.claim_from Store.claim_due
    Store.advance
runs = tt

-- Mondays at eight.
abbrev mondays : Recurrence
mondays = every_week 28_800_000_000 0 0

abbrev monday_fields : Fields
monday_fields = record {
  frequency = some weekly;
  time_of_day = some 28_800_000_000;
  weekday = some 0;
  interval_s = none;
  tz = some 0;
}

-- The first Monday was the fifth of January 1970.
test_first_monday : next_after mondays 0 ≡ some 374_400_000_000
unfolding runs
test_first_monday = refl

test_next_monday : next_after mondays 374_400_000_000 ≡ some 979_200_000_000
unfolding runs
test_next_monday = refl

next_after-IsNext_example : (t : ℕ) × (next_after mondays 0 ≡ some t) × (0 < t) × IsNext mondays 0 t
next_after-IsNext_example = next_after-IsNext mondays 0 (omega arith, omega arith)

-- Claimed an hour and a half late, an hourly schedule keeps its grid.
test_grid : following (every 3_600) 0 5_400_000_000 ≡ some 7_200_000_000
unfolding runs
test_grid = refl

following_grid_example :
    (t : ℕ) × (following (every 3_600) 0 5_400_000_000 ≡ some t)
    × (5_400_000_000 < t)
    × ((k : ℕ) × (t ≡ 0 + 3_600 * second * (k + 1)))
    × ((j : ℕ) → 5_400_000_000 < 0 + 3_600 * second * (j + 1) → t ≤ 0 + 3_600 * second * (j + 1))
following_grid_example = following_grid 3_600 0 5_400_000_000 (omega arith)

abbrev pub hourly : Schedule
hourly = record {
  id = "s1";
  runtime_id = "sales";
  subject_key = "participant:1";
  prompt = "the sales";
  recurrence = every 3_600;
  next_run_at = 10;
  created_at = 1;
  last_run_at = none;
  last_status = none;
}

abbrev stored : Store.Store
stored = (Store.add anna 1 hourly []).1

test_full : (Store.add anna 1 (record hourly { id = "s2" }) stored).0 ≡ Bool.false
unfolding runs
test_full = refl

add_cap_example :
    ((Store.add anna 1 hourly []).0 ≡ ltb (held anna []) 1)
    × (held bob (Store.add anna 1 hourly []).1 ≡ (
        if ◌==◌ {A = Scope.Subject} anna bob && ltb (held anna []) 1
        then held anna [] + 1
        else held bob []))
unfolding runs
add_cap_example = add_cap anna bob 1 hourly [] refl

claim_due_first_example :
    ((Store.claim_due Store.advance 20 stored ≡ Claim.idle)
      × All (λ r. 20 < r.3.next_run_at) (Scope.all_rows schedules_table stored))
    ⊎ ((row : Store.Row) × (next : ℕ) × IsRun 20 stored
          (Store.claim_due Store.advance 20 stored)
          row
          next)
unfolding runs
claim_due_first_example = claim_due_first 20 stored (omega arith, tt)

abbrev next_hourly : Schedule
next_hourly = record hourly { next_run_at = 3_600_000_010 }

abbrev claimed_store : Store.Store
claimed_store = moved_store ("sales", "participant:1", "s1", hourly) 3_600_000_010 stored

claim_due_once_example :
    (row : Row) × IsIn row (Scope.all_rows schedules_table stored)
    × (10 ≡ row.3.next_run_at)
    × (10 ≤ 20)
    × (next_hourly ≡ record row.3 { next_run_at = 3_600_000_010 })
    × (20 < 3_600_000_010)
    × ((t : Scope.Subject) (table id : String)
        → Dict.get id (view t table claimed_store) ≡ (
            if (row.0, row.1) == t && schedules_table == table && row.2 == id
            then some next_hourly
            else Dict.get id (view t table stored)))
unfolding runs
claim_due_once_example =
    claim_due_once 20 stored next_hourly 10 claimed_store (omega arith, tt) (refl, tt) refl
