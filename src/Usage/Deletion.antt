-- ===== src/Usage/Deletion.antt =====
-- `InMemoryUsageLedger.delete` of usage.py, against the queries.
use agents_system.Prelude.{
  ℕ, ◌==◌, Option, none, String, string_eq, pair_eq, List, [], ◌∷◌, if◌then◌else◌, ◌≡◌, refl, ap,
  ◌∙◌, arith, keep_if, length,
}
use agents_system.Dict
use agents_system.Dict.{Dict}
use agents_system.Scope
use agents_system.Scope.{Store, Subject, pop_all}
use agents_system.Scope.Isolation.{view, view-delete, view-read}
use agents_system.Usage.{UsageRecord, usage_table, is_since, query, delete_keys, delete}
use agents_system.Usage.Totals.{length-sort_from}

pop-pop :
    (j k : String) (d : Dict String UsageRecord)
    → Dict.pop j (Dict.pop k d) ≡ Dict.pop k (Dict.pop j d)
unfolding Dict.pop
pop-pop j k [] = refl
pop-pop j k ((i, r) ∷ d) = ground (arith, pop-pop j k d)

pop_all-pop :
    (ks : List String) (k : String) (d : Dict String UsageRecord)
    → pop_all ks (Dict.pop k d) ≡ Dict.pop k (pop_all ks d)
unfolding pop_all
pop_all-pop [] k d = refl
pop_all-pop (j ∷ ks) k d = ap (pop_all ks) (pop-pop j k d) ∙ pop_all-pop ks k (Dict.pop j d)

-- Without its keys a dict is empty.
pop_all-keys : (d : Dict String UsageRecord) → pop_all (Dict.keys d) d ≡ []
unfolding pop_all Dict.pop
pop_all-keys [] = refl
pop_all-keys ((k, r) ∷ d) = ground (arith, pop_all-pop (Dict.keys d) k d, pop_all-keys d)

view-delete_keys :
    (s t : Subject) (ks : List String) (store : Store UsageRecord)
    → view t usage_table (delete_keys s ks store)
      ≡ (if s == t then pop_all ks (view s usage_table store) else view t usage_table store)
unfolding delete_keys pop_all
view-delete_keys s t [] store = ground arith
view-delete_keys s t (k ∷ ks) store = ground (
  arith,
  view-delete_keys s t ks (Scope.delete s usage_table k store),
  view-delete s t usage_table usage_table k store,
  view-delete s s usage_table usage_table k store,
)

view-ledger_delete :
    (s t : Subject) (store : Store UsageRecord)
    → view t usage_table (delete s store).1 ≡ (if s == t then [] else view t usage_table store)
unfolding delete
view-ledger_delete s t store =
    let touched = (Scope.rows s usage_table store).1 in
    ground (
      arith,
      view-delete_keys s t (Dict.keys (view s usage_table store)) touched,
      (view-read s s usage_table usage_table "" store).0,
      (view-read s t usage_table usage_table "" store).0,
      pop_all-keys (view s usage_table store),
    )

length-values : (d : Dict String UsageRecord) → length (Dict.values d) ≡ length d
length-values [] = refl
length-values (p ∷ d) = omega (arith, length-values d)

keep_if_all : (rs : List UsageRecord) → keep_if (is_since none) rs ≡ rs
unfolding is_since
keep_if_all [] = refl
keep_if_all (r ∷ rs) = ap (λ t. r ∷ t) (keep_if_all rs)

-- A deletion reports as many rows as the subject's history holds; then that history is empty, from
-- any time on, and the history of every other subject is what it was.
pub query-delete :
    (s t : Subject) (since : Option ℕ) (store : Store UsageRecord)
    → ((delete s store).0 ≡ length (query s none store))
      × (query t since (delete s store).1 ≡ (if s == t then [] else query t since store))
unfolding query
query-delete s t since store = (
  rw (length-sort_from (keep_if (is_since none) (Dict.values (view s usage_table store))))
      (rw keep_if_all (rw length-values (unfold delete in refl))),
  ground (arith, view-ledger_delete s t store),
)
