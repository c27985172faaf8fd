-- ===== src/SubjectData.antt =====
-- The registry of the stores of per-user data, the deletion and the export of a subject, and the
-- purger: subject_data.py. A store is what it answers: its rows, its counts, or nothing where it
-- raises. The audit of a deletion answers whether it was taken.
pub mod Stores
pub mod Deletion
use agents_system.Prelude.{
  ℕ, suc, ◌+◌, ◌==◌, Bool, true, false, not, Option, none, some, String, string_eq, nat_eq, List,
  [], ◌∷◌, ◌++◌, if◌then◌else◌, map, any, is_none, Result, ok, err,
}
use agents_system.Dict
use agents_system.Dict.{Dict}

pub record SubjectRef : Type 0 where
  pub runtime_id : String
  pub subject_key : String

-- `SubjectDataStore`; `object` is the store's identity, `purge` is there where it is a `RetainedStore`.
pub record Store : Type 0 where
  pub object : ℕ
  pub name : String
  pub tables : List String
  pub unbound : Bool
  pub export : SubjectRef → List String
  pub delete : SubjectRef → Option ℕ
  pub purge : Option (ℕ → Option ℕ)

-- `ThreadStore`
pub record ThreadStore : Type 0 where
  pub export_thread : String → Option String
  pub delete_thread : String → Option ℕ

-- `SubjectDataRegistry._stores`
abbrev pub Registry : Type 0
Registry = Dict String Store

pub data RegistryError : Type 0 where
  already_registered : String → RegistryError
  unknown_stores : List String → RegistryError

-- `SubjectDataRegistry.register`
unfoldable pub register : Store → Registry → Result RegistryError Registry
register store r =
    if Dict.has store.name r
    then err (already_registered store.name)
    else ok (Dict.put store.name store r)

-- `SubjectDataRegistry.bind`
unfoldable pub bind : Store → Registry → Result RegistryError Registry
bind store r = elim (Dict.get store.name r) [
  | none ↦ ok (Dict.put store.name store r)
  | some existing ↦
      if existing.object == store.object
      then ok r
      else if not existing.unbound
      then err (already_registered store.name)
      else ok (Dict.put store.name store r)
]

-- What `export_subject` returns.
pub record Export : Type 0 where
  pub stores : Dict String (List String)
  pub threads : List String

-- the loop over the threads that are exported
unfoldable pub export_threads : ThreadStore → List String → List String
export_threads t [] = []
export_threads t (id ∷ ids) =
    let rest = export_threads t ids in
    elim (t.export_thread id) [ none ↦ rest | some thread ↦ thread ∷ rest ]

-- `export_subject`
unfoldable pub export_subject : Registry → SubjectRef → Option ThreadStore → List String → Export
unfolding export_threads
export_subject r subject threads ids = record {
  stores = map (λ e. (e.0, e.1.export subject)) r;
  threads = elim threads [ none ↦ [] | some t ↦ export_threads t ids ];
}

-- What the loops of `delete_subject` have done: the rows deleted of each store and of the threads, and
-- what failed.
pub record Tally : Type 0 where
  pub deleted : List (String × ℕ)
  pub failed : List String

-- the loop over the stores
unfoldable pub delete_stores : SubjectRef → Registry → Tally
delete_stores subject [] = record { deleted = []; failed = [] }
delete_stores subject ((name, store) ∷ r) =
    let rest = delete_stores subject r in
    elim (store.delete subject) [
      | some n ↦ record rest { deleted = (name, n) ∷ rest.deleted }
      | none ↦ record rest { failed = name ∷ rest.failed }
    ]

-- the loop over the threads: the rows deleted, and the threads that failed
unfoldable pub delete_threads : ThreadStore → List String → ℕ × ℕ
delete_threads t [] = (0, 0)
delete_threads t (id ∷ ids) =
    let rest = delete_threads t ids in
    elim (t.delete_thread id) [ some n ↦ (n + rest.0, rest.1) | none ↦ (rest.0, suc rest.1) ]

-- A deletion that went through, or a `SubjectDeletionError`; the number of threads that failed stands
-- for the entry that `failed` has for them.
pub data Outcome : Type 0 where
  done : (stores : List (String × ℕ)) (threads : ℕ) (audited : Bool) → Outcome
  raised :
      (failed : List String) (failed_threads : ℕ) (stores : List (String × ℕ)) (threads : ℕ)
      → Outcome

-- what is raised or returned; the audit event is recorded in both cases
unfoldable pub conclude : Tally → ℕ × ℕ → Bool → Outcome
conclude tally (threads, failed_threads) audited = elim tally.failed [
  | [] ↦
      if failed_threads == 0
      then done tally.deleted threads audited
      else raised [] failed_threads tally.deleted threads
  | name ∷ names ↦ raised (name ∷ names) failed_threads tally.deleted threads
]

abbrev pub threads_of : Option ThreadStore → List String → ℕ × ℕ
threads_of none ids = (0, 0)
threads_of (some t) ids = delete_threads t ids

-- `delete_subject`
unfoldable pub delete_subject :
    Registry → SubjectRef → Option ThreadStore → List String → (audited : Bool) → Outcome
unfolding delete_stores delete_threads conclude
delete_subject r subject threads ids audited =
    conclude (delete_stores subject r) (threads_of threads ids) audited

abbrev pub Retention : Type 0
Retention = List (String × Option ℕ)

-- the names that no store has, in the order of the mapping: the message sorts them
unfoldable pub unknown_names : Registry → Retention → List String
unknown_names r [] = []
unknown_names r ((name, seconds) ∷ rs) =
    let rest = unknown_names r rs in if Dict.has name r then rest else name ∷ rest

-- `SubjectDataPurger(registry, retention=...)`
unfoldable pub make_purger : Registry → Retention → Result RegistryError Retention
unfolding unknown_names
make_purger r retention = elim (unknown_names r retention) [
  | [] ↦ ok retention
  | name ∷ names ↦ err (unknown_stores (name ∷ names))
]

-- the purge of one store
unfoldable pub purge_one : Registry → String → ℕ → Option ℕ
purge_one r name seconds = elim (Dict.get name r) [
  | none ↦ none
  | some store ↦ (elim store.purge [ none ↦ none | some purge ↦ purge seconds ])
]

-- `SubjectDataPurger.run_once`
unfoldable pub run_once : Registry → Retention → List (String × ℕ)
unfolding purge_one
run_once r [] = []
run_once r ((name, none) ∷ rs) = run_once r rs
run_once r ((name, some seconds) ∷ rs) =
    let rest = run_once r rs in
    elim (purge_one r name seconds) [ none ↦ rest | some n ↦ (name, n) ∷ rest ]
