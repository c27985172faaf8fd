-- ===== src/Tests/SubjectData.antt =====
-- A registry of two stores, one of which cannot delete.
use agents_system.Prelude.{
  ◌==◌, ◌&&◌, true, false, not, none, some, String, string_eq, nat_eq, String_discrete, ℕ_discrete,
  List, [], ◌∷◌, ok, err, if◌then◌else◌, map, every, sum_of, is_none, ◌≡◌, refl,
}
use agents_system.Dict
use agents_system.SubjectData
use agents_system.SubjectData.{
  SubjectRef, Store, ThreadStore, Registry, already_registered, register, bind, raised,
  delete_subject, run_once, unknown_stores, make_purger,
}
use agents_system.SubjectData.Deletion
use agents_system.SubjectData.Deletion.{
  succeeded, rows_of, stores_of, failed_of, is_done, thread_rows_of, thread_count, or_zero,
  delete_subject-attempts,
}

runs : Unit {0}
unfolding String_discrete ℕ_discrete Dict.get Dict.put SubjectData.register SubjectData.bind
    SubjectData.delete_stores SubjectData.delete_threads SubjectData.conclude
    SubjectData.delete_subject SubjectData.unknown_names SubjectData.make_purger
    SubjectData.purge_one SubjectData.run_once
runs = tt

abbrev anna : SubjectRef
anna = record { runtime_id = "sales"; subject_key = "participant:1" }

abbrev usage : Store
usage = record {
  object = 1;
  name = "usage";
  tables = "subject_usage" ∷ [];
  unbound = false;
  export = λ s. "7 turns" ∷ [];
  delete = λ s. some 7;
  purge = some (λ seconds. some 2);
}

abbrev broken : Store
broken = record {
  object = 2;
  name = "facts";
  tables = "subject_facts" ∷ [];
  unbound = true;
  export = λ s. [];
  delete = λ s. none;
  purge = none;
}

abbrev live : Store
live = record broken { object = 3; unbound = false; delete = λ s. some 4 }

abbrev two : Registry
two = ("usage", usage) ∷ ("facts", broken) ∷ []

abbrev threads : ThreadStore
threads = record {
  export_thread = λ id. some id;
  delete_thread = λ id. if id == "t1" then some 3 else none;
}

abbrev ids : List String
ids = "t1" ∷ "t2" ∷ []

-- The store after the one that fails, and the thread that does not, are deleted all the same.
test_attempts :
    delete_subject (("facts", broken) ∷ ("usage", usage) ∷ []) anna (some threads) ids true
    ≡ raised ("facts" ∷ []) 1 (("usage", 7) ∷ []) 3
unfolding runs
test_attempts = refl

test_purger : make_purger two (("orders", some 5) ∷ []) ≡ err (unknown_stores ("orders" ∷ []))
unfolding runs
test_purger = refl

test_run_once : run_once two (("usage", some 5) ∷ ("facts", some 5) ∷ []) ≡ ("usage", 2) ∷ []
unfolding runs
test_run_once = refl

delete_subject-attempts_example :
    let o = delete_subject two anna (some threads) ids true in
    (stores_of o ≡ map (λ e. (e.0, or_zero (e.1.delete anna))) (succeeded anna two))
    × (failed_of o ≡ map (λ e. e.0) (Deletion.broken anna two))
    × (rows_of o ≡ sum_of (λ e. or_zero (e.1.delete anna)) two)
    × (thread_rows_of o ≡ sum_of (λ id. or_zero (thread_count (some threads) id)) ids)
    × (is_done o ≡ (
        every (λ e. not (is_none (e.1.delete anna))) two
        && every (λ id. not (is_none (thread_count (some threads) id))) ids))
delete_subject-attempts_example = delete_subject-attempts two anna (some threads) ids true

test_bound : bind live two ≡ ok (("usage", usage) ∷ ("facts", live) ∷ [])
unfolding runs
test_bound = refl
