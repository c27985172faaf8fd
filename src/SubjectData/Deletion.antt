-- ===== src/SubjectData/Deletion.antt =====
-- The deletion of a subject's data in subject_data.py.
use agents_system.Prelude.{
  ℕ, ◌+◌, ◌==◌, ◌&&◌, Bool, true, false, not, Option, none, some, String, string_eq, nat_eq, List,
  [], ◌∷◌, ◌++◌, map, keep_if, every, sum_of, sum_of-append, length, is_none, ok, ◌≡◌, refl, sym,
  ap, ◌∙◌, subst, arith, Option-cases, Bool-cases, inl, inr,
}
use agents_system.Dict
use agents_system.Dict.{Dict}
use agents_system.SubjectData.{
  SubjectRef, Store, ThreadStore, Registry, register, Tally, delete_stores, delete_threads, Outcome,
  done, raised, conclude, threads_of, delete_subject,
}

-- What an outcome says: the stores that deleted, the rows of the threads, the stores that failed, and
-- whether it was raised.
abbrev pub stores_of : Outcome → List (String × ℕ)
stores_of (done stores threads audited) = stores
stores_of (raised failed failed_threads stores threads) = stores

abbrev pub thread_rows_of : Outcome → ℕ
thread_rows_of (done stores threads audited) = threads
thread_rows_of (raised failed failed_threads stores threads) = threads

abbrev pub failed_of : Outcome → List String
failed_of (done stores threads audited) = []
failed_of (raised failed failed_threads stores threads) = failed

abbrev pub is_done : Outcome → Bool
is_done (done stores threads audited) = true
is_done (raised failed failed_threads stores threads) = false

abbrev pub or_zero : Option ℕ → ℕ
or_zero none = 0
or_zero (some n) = n

-- The rows of all the stores that deleted.
abbrev pub rows_of : Outcome → ℕ
rows_of o = sum_of (λ e. e.1) (stores_of o)

-- The thread is deleted, by a checkpointer if there is one.
abbrev pub thread_count : Option ThreadStore → String → Option ℕ
thread_count none id = some 0
thread_count (some t) id = t.delete_thread id

conclude_says :
    (tally : Tally) (n m : ℕ) (audited : Bool)
    → let o = conclude tally (n, m) audited in
      (stores_of o ≡ tally.deleted)
      × (thread_rows_of o ≡ n)
      × (failed_of o ≡ tally.failed)
      × (is_done o ≡ (length tally.failed == 0 && m == 0))
unfolding conclude
conclude_says tally n m audited = from tally.failed refl
  where
    from :
        (failed : List String)
        → tally.failed ≡ failed
        → let o = conclude tally (n, m) audited in
          (stores_of o ≡ tally.deleted)
          × (thread_rows_of o ≡ n)
          × (failed_of o ≡ tally.failed)
          × (is_done o ≡ (length tally.failed == 0 && m == 0))
    from [] e = elim (Bool-cases (m == 0)) [
      | inl z ↦ (ground arith, ground arith, ground arith, ground arith)
      | inr z ↦ (ground arith, ground arith, ground arith, ground arith)
    ]
    from (name ∷ names) e = (ground arith, ground arith, ground arith, ground arith)

-- The stores that can delete the subject, and those that cannot.
abbrev pub succeeded : SubjectRef → Registry → Registry
succeeded subject r = keep_if (λ e. not (is_none (e.1.delete subject))) r

abbrev pub broken : SubjectRef → Registry → Registry
broken subject r = keep_if (λ e. is_none (e.1.delete subject)) r

delete_stores_says :
    (subject : SubjectRef) (r : Registry)
    → let tally = delete_stores subject r in
      (tally.deleted ≡ map (λ e. (e.0, or_zero (e.1.delete subject))) (succeeded subject r))
      × (tally.failed ≡ map (λ e. e.0) (broken subject r))
      × (sum_of (λ e. e.1) tally.deleted ≡ sum_of (λ e. or_zero (e.1.delete subject)) r)
      × ((length tally.failed == 0) ≡ every (λ e. not (is_none (e.1.delete subject))) r)
unfolding delete_stores
delete_stores_says subject [] = (refl, refl, refl, ground arith)
delete_stores_says subject ((name, store) ∷ r) =
    let (deleted, failed, sums, all) = delete_stores_says subject r in
    elim (Option-cases (store.delete subject)) [
      | inl e ↦ (ground arith, ground arith, ground arith, ground arith)
      | inr (n, e) ↦ (ground arith, ground arith, ground arith, ground arith)
    ]

delete_threads_says :
    (t : ThreadStore) (ids : List String)
    → ((delete_threads t ids).0 ≡ sum_of (λ id. or_zero (t.delete_thread id)) ids)
      × (((delete_threads t ids).1 == 0) ≡ every (λ id. not (is_none (t.delete_thread id))) ids)
unfolding delete_threads
delete_threads_says t [] = (refl, ground arith)
delete_threads_says t (id ∷ ids) =
    let (sums, all) = delete_threads_says t ids in
    elim (Option-cases (t.delete_thread id)) [
      | inl e ↦ (ground arith, ground arith)
      | inr (n, e) ↦ (ground arith, ground arith)
    ]

no_threads :
    (ids : List String) → (sum_of (λ id. 0) ids ≡ 0) × (every (λ (id : String). true) ids ≡ true)
no_threads [] = (refl, refl)
no_threads (id ∷ ids) = let (s, e) = no_threads ids in (ground arith, ground arith)

threads_says :
    (threads : Option ThreadStore) (ids : List String)
    → ((threads_of threads ids).0 ≡ sum_of (λ id. or_zero (thread_count threads id)) ids)
      × (((threads_of threads ids).1 == 0)
          ≡ every (λ id. not (is_none (thread_count threads id))) ids)
threads_says none ids = let (s, e) = no_threads ids in (sym s, ground arith)
threads_says (some t) ids = delete_threads_says t ids

-- A deletion attempts every store and every named thread, whichever of them fail: the result names,
-- in the order of the registry, each store that deleted, with the rows that it says it deleted, and
-- each store that failed; the rows of the threads are those of all that did not fail. It raises
-- exactly when a store or a thread failed.
pub delete_subject-attempts :
    (r : Registry) (subject : SubjectRef) (threads : Option ThreadStore) (ids : List String)
    (audited : Bool)
    → let o = delete_subject r subject threads ids audited in
      (stores_of o ≡ map (λ e. (e.0, or_zero (e.1.delete subject))) (succeeded subject r))
      × (failed_of o ≡ map (λ e. e.0) (broken subject r))
      × (rows_of o ≡ sum_of (λ e. or_zero (e.1.delete subject)) r)
      × (thread_rows_of o ≡ sum_of (λ id. or_zero (thread_count threads id)) ids)
      × (is_done o ≡ (
          every (λ e. not (is_none (e.1.delete subject))) r
          && every (λ id. not (is_none (thread_count threads id))) ids))
unfolding delete_subject
delete_subject-attempts r subject threads ids audited =
    let (deleted, names, sums, all) = delete_stores_says subject r in
    let (rows, each) = threads_says threads ids in
    let tally = delete_stores subject r in
    let (stores, counts, failed, finished) =
      conclude_says tally (threads_of threads ids).0 (threads_of threads ids).1 audited in
    (
      stores ∙ deleted,
      failed ∙ names,
      ap (sum_of (λ e. e.1)) stores ∙ sums,
      counts ∙ rows,
      finished
          ∙ ap (λ b. b && (threads_of threads ids).1 == 0) all
          ∙ ap (λ b. every (λ e. not (is_none (e.1.delete subject))) r && b) each,
    )

put_absent :
    (name : String) (store : Store) (r : Registry)
    → Dict.get name r ≡ none
    → Dict.put name store r ≡ r ++ ((name, store) ∷ [])
unfolding Dict.get Dict.put
put_absent name store [] h = refl
put_absent name store ((j, w) ∷ r) h = ground (arith, put_absent name store r)

-- A store that is registered is no longer forgotten by a deletion: it deletes the rows that it
-- deleted before and those of the new store, and raises where the new store fails.
pub register-delete_subject :
    (r r' : Registry) (store : Store) (subject : SubjectRef) (threads : Option ThreadStore)
    (ids : List String) (audited : Bool)
    → register store r ≡ ok r'
    → let before = delete_subject r subject threads ids audited in
      let after = delete_subject r' subject threads ids audited in
      (rows_of after ≡ rows_of before + or_zero (store.delete subject))
      × (is_done after ≡ (is_done before && not (is_none (store.delete subject))))
unfolding register
register-delete_subject r r' store subject threads ids audited h =
    elim (Option-cases (Dict.get store.name r)) [
      | inr (held, e) ↦ absurd (ground arith)
      | inl e ↦
          let grown : r ++ ((store.name, store) ∷ []) ≡ r' =
            sym (put_absent store.name store r e) ∙ (ground arith) in
          let (s, n, rows, t, finished) = delete_subject-attempts r subject threads ids audited in
          let (s', n', rows', t', finished') =
            delete_subject-attempts (r ++ ((store.name, store) ∷ [])) subject threads ids audited in
          let sums =
            sum_of-append (λ (e : String × Store). or_zero (e.1.delete subject)) r
              ((store.name, store) ∷ []) in
          let all =
            every-append (λ (e : String × Store). not (is_none (e.1.delete subject))) r
              ((store.name, store) ∷ []) in
          subst
            (λ x.
              (rows_of (delete_subject x subject threads ids audited)
                ≡ rows_of (delete_subject r subject threads ids audited)
                  + or_zero (store.delete subject))
              × (is_done (delete_subject x subject threads ids audited) ≡ (
                  is_done (delete_subject r subject threads ids audited)
                  && not (is_none (store.delete subject)))))
            grown (omega (arith, rows, rows', sums), ground (arith, finished, finished', all))
    ]
  where
    every-append :
        (p : String × Store → Bool) (xs ys : Registry)
        → every p (xs ++ ys) ≡ (every p xs && every p ys)
    every-append p [] ys = refl
    every-append p (x ∷ xs) ys = ground (arith, every-append p xs ys)
