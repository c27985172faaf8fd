-- ===== src/Scope/Sweep.antt =====
-- The sweep of the in-memory provider of scope.py, against the rows it runs over.
use agents_system.Prelude.{
  Bool, false, not, none, String, string_eq, pair_eq, List, [], ◌∷◌, ◌++◌, ◌≡◌, refl, ap, arith,
  map, keep_if, count_if, keep_if-append, count_if-append, ◌≢◌, length, contains, Option-cases, inl,
  inr,
}
use agents_system.Dict
use agents_system.Dict.{Dict}
use agents_system.Dict.Laws.{get-put}
use agents_system.Dict.Distinct.{Distinct, pop_absent, All-get}
use agents_system.Scope.Valid.{IsTidy, IsValid}
use agents_system.Scope.{
  Subject, Store, Tables, get_or_empty, all_rows, expired_keys, pop_all, sweep_in, sweep,
}

module _ {Row : Type 0} (expired : Row → Bool) where
  expired_keys_absent :
      (k : String) (d : Dict String Row)
      → Dict.get k d ≡ none
      → contains k (expired_keys expired d) ≡ false
  unfolding expired_keys Dict.get
  expired_keys_absent k [] h = refl
  expired_keys_absent k ((j, r) ∷ d) h = ground (arith, expired_keys_absent k d)

  pop_all_other :
      (ks : List String) (k : String) (r : Row) (d : Dict String Row)
      → contains k ks ≡ false
      → pop_all ks ((k, r) ∷ d) ≡ (k, r) ∷ pop_all ks d
  unfolding pop_all Dict.pop
  pop_all_other [] k r d h = refl
  pop_all_other (j ∷ ks) k r d h = ground (arith, pop_all_other ks k r (Dict.pop j d))

  pop_all-expired_keys :
      (d : Dict String Row)
      → Distinct d
      → pop_all (expired_keys expired d) d ≡ keep_if (λ p. not (expired p.1)) d
  unfolding pop_all expired_keys Dict.pop
  pop_all-expired_keys [] h = refl
  pop_all-expired_keys ((k, r) ∷ d) (new, h) = ground (
    arith,
    pop_all-expired_keys d h,
    pop_absent k d new,
    expired_keys_absent k d new,
    pop_all_other (expired_keys expired d) k r d,
  )

  length-expired_keys :
      (d : Dict String Row) → length (expired_keys expired d) ≡ count_if (λ p. expired p.1) d
  unfolding expired_keys
  length-expired_keys [] = refl
  length-expired_keys ((k, r) ∷ d) = ground (arith, length-expired_keys d)

  rows_of : Subject → Dict String Row → List (String × String × String × Row)
  rows_of s = map (λ e. (s.0, s.1, e.0, e.1))

  keep_if-rows_of :
      (s : Subject) (d : Dict String Row)
      → keep_if (λ e. not (expired e.3)) (rows_of s d)
        ≡ rows_of s (keep_if (λ p. not (expired p.1)) d)
  unfolding rows_of
  keep_if-rows_of s [] = refl
  keep_if-rows_of s ((k, r) ∷ d) = ground (arith, keep_if-rows_of s d)

  count_if-rows_of :
      (s : Subject) (d : Dict String Row)
      → count_if (λ e. expired e.3) (rows_of s d) ≡ count_if (λ p. expired p.1) d
  unfolding rows_of
  count_if-rows_of s [] = refl
  count_if-rows_of s ((k, r) ∷ d) = ground (arith, count_if-rows_of s d)

  sweep_in-table :
      (table : String) (ts : Tables Row)
      → IsTidy ts
      → get_or_empty table (sweep_in table expired ts)
        ≡ keep_if (λ p. not (expired p.1)) (get_or_empty table ts)
  unfolding sweep_in get_or_empty
  sweep_in-table table ts tidy = elim (Option-cases (Dict.get table ts)) [
    | inl absent ↦ ground arith
    | inr (held, present) ↦ ground (
      arith,
      get-put table table (pop_all (expired_keys expired held) held) ts,
      pop_all-expired_keys held (All-get Distinct table held ts tidy.1 present),
    )
  ]

  sweep_in-other :
      (table u : String) (ts : Tables Row)
      → table ≢ u
      → get_or_empty u (sweep_in table expired ts) ≡ get_or_empty u ts
  unfolding sweep_in get_or_empty
  sweep_in-other table u ts other = elim (Option-cases (Dict.get table ts)) [
    | inl absent ↦ ground arith
    | inr (held, present) ↦
        ground (arith, get-put table u (pop_all (expired_keys expired held) held) ts)
  ]

  -- On a valid store, which holds no key twice, a sweep of a table removes exactly the rows of that
  -- table that are expired, for every subject, and reports how many they were; the rows of every
  -- other table stay.
  pub all_rows-sweep :
      (table : String) (store : Store Row)
      → IsValid store
      → (all_rows table (sweep table expired store).1
          ≡ keep_if (λ e. not (expired e.3)) (all_rows table store))
        × ((sweep table expired store).0 ≡ count_if (λ e. expired e.3) (all_rows table store))
        × ((u : String) → table ≢ u → all_rows u (sweep table expired store).1 ≡ all_rows u store)
  unfolding all_rows sweep rows_of
  all_rows-sweep table [] v = (refl, refl, λ u other. refl)
  all_rows-sweep table ((s, ts) ∷ store) ((new, d), (tidy, a)) =
      let (kept, removed, others) = all_rows-sweep table store (d, a) in
      (
        rw keep_if-append (
            rw (sweep_in-table table ts tidy)
              (cc (kept, keep_if-rows_of s (get_or_empty table ts)))),
        rw count_if-append (
            ground (
              arith,
              length-expired_keys (get_or_empty table ts),
              count_if-rows_of s (get_or_empty table ts),
            )),
        λ u other.
            rw (sweep_in-other table u ts other)
              (ap (λ r. map (λ e. (s.0, s.1, e.0, e.1)) (get_or_empty u ts) ++ r) (others u other)),
      )
