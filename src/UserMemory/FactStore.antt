-- ===== src/UserMemory/FactStore.antt =====
-- The subject data store of the facts: `InMemoryUserFactStore` of user_memory.py.
use agents_system.Prelude.{
  ℕ, suc, ◌≤◌, ◌==◌, ◌&&◌, true, not, String, string_eq, pair_eq, List, [], ◌∷◌, if◌then◌else◌, map,
  keep_if, contains, count_if, count_if-le, length, All, ◌≡◌, refl, ap, ◌∙◌, arith,
}
use agents_system.Dict
use agents_system.Dict.{Dict}
use agents_system.Scope
use agents_system.Scope.{Subject}
use agents_system.Scope.Isolation.{view-read}
use agents_system.UserMemory.{facts_table, UserFact, Store, all_facts, remove, is_expired}
use agents_system.UserMemory.Views.{facts_of, IsKeyed, view-remove}
use agents_system.UserMemory.Chosen.{ids_of, count_if-pop_all}

-- `InMemoryUserFactStore.export`, the facts of which `export_row` makes the rows
unfoldable pub export_facts : Subject → ℕ → Store → List UserFact × Store
unfolding all_facts
export_facts s now store =
    let (rows, read) = all_facts s store in (keep_if (λ f. not (is_expired now f)) rows, read)

-- `InMemoryUserFactStore.purge`
unfoldable pub purge : ℕ → Store → ℕ × Store
purge now store = Scope.sweep facts_table (is_expired now) store

-- `InMemoryUserFactStore.delete`
unfoldable pub delete_facts : Subject → Store → ℕ × Store
unfolding all_facts remove
delete_facts s store = let (rows, read) = all_facts s store in remove s (map (λ f. f.id) rows) read

length-present :
    (held : Dict String UserFact) (fs : List UserFact)
    → All (λ f. Dict.has f.id held ≡ true) fs
    → length (keep_if (λ id. Dict.has id held) (ids_of fs)) ≡ length fs
length-present held [] a = refl
length-present held (f ∷ fs) (h, a) = ground (arith, h, length-present held fs a)

has_own :
    (d : Dict String UserFact)
    → All (λ e. e.0 ≡ e.1.id) d
    → All (λ f. Dict.has f.id d ≡ true) (Dict.values d)
unfolding Dict.get
has_own [] a = tt
has_own ((j, g) ∷ d) (own, a) = ((ground arith), wider (Dict.values d) (has_own d a))
  where
    wider :
        (fs : List UserFact)
        → All (λ f. Dict.has f.id d ≡ true) fs
        → All (λ f. Dict.has f.id ((j, g) ∷ d) ≡ true) fs
    wider [] h = tt
    wider (f ∷ fs) (e, h) = ((ground arith), wider fs h)

contained_none :
    (ks : List String) (fs : List UserFact)
    → ((k : String) → contains k (ids_of fs) ≡ true → contains k ks ≡ true)
    → count_if (λ f. not (contains f.id ks)) fs ≡ 0
contained_none ks [] h = refl
contained_none ks (f ∷ fs) h =
    let here : contains f.id ks ≡ true = h f.id (ground arith) in
    ground (arith, contained_none ks fs (λ k e. h k (ground arith)), here)

length-values : (d : Dict String UserFact) → length (Dict.values d) ≡ length d
length-values [] = refl
length-values (e ∷ d) = ap suc (length-values d)

no_values : (d : Dict String UserFact) → count_if (λ f. true) (Dict.values d) ≤ 0 → d ≡ []
no_values [] h = refl
no_values (e ∷ d) h = absurd (omega arith)

-- A deletion leaves the user no fact, tells how many there were, and changes no other user's facts.
pub delete_facts-erases :
    (s : Subject) (store : Store)
    → IsKeyed (facts_of s store)
    → ((delete_facts s store).0 ≡ length (facts_of s store))
      × ((u : Subject)
          → facts_of u (delete_facts s store).1 ≡ (if s == u then [] else facts_of u store))
unfolding delete_facts
delete_facts-erases s store v = (counted, left)
  where
    held : Dict String UserFact
    held = facts_of s store

    ids : List String
    ids = ids_of (Dict.values held)

    touched : (u : Subject) → facts_of u (Scope.rows s facts_table store).1 ≡ facts_of u store
    touched u = (view-read s u facts_table facts_table "" store).0

    counted :
        length (keep_if (λ id. Dict.has id (facts_of s (all_facts s store).1)) ids) ≡ length held
    counted =
        ap (λ d. length (keep_if (λ id. Dict.has id d) ids)) (touched s)
        ∙ length-present held (Dict.values held) (has_own held v.own_id)
        ∙ length-values held

    emptied : Scope.pop_all ids held ≡ []
    emptied = no_values (Scope.pop_all ids held) (
        omega (
          arith,
          count_if-pop_all (λ f. true) ids held v.own_id,
          count_if-le (λ f. true && not (contains f.id ids)) (λ f. not (contains f.id ids))
              (Dict.values held) (λ f h. h),
          contained_none ids (Dict.values held) (λ k e. e),
        ))

    left :
        (u : Subject)
        → facts_of u (delete_facts s store).1 ≡ (if s == u then [] else facts_of u store)
    left u = ground (
      arith,
      view-remove s u ids (Scope.rows s facts_table store).1,
      touched s,
      touched u,
      emptied,
    )
