-- ===== src/Scope.antt =====
-- The per-user store: `InMemoryScope` and `InMemoryScopeProvider` of scope.py. A store maps a
-- (runtime id, subject key) pair to tables, and a table's name to its rows. The locks are not
-- modelled: no method awaits, so each is one step.
pub mod Isolation
pub mod Valid
pub mod Sweep
use agents_system.Prelude.{
  ℕ, ◌+◌, ◌==◌, Bool, true, false, Eq, Option, none, some, String, string_eq, pair_eq, List, [],
  ◌∷◌, ◌++◌, if◌then◌else◌, keep_if, length, map,
}
use agents_system.Dict
use agents_system.Dict.{Dict}

abbrev pub Subject : Type 0
Subject = String × String

abbrev pub Tables : Type 0 → Type 0
Tables Row = Dict String (Dict String Row)

abbrev pub Store : Type 0 → Type 0
Store Row = Dict Subject (Tables Row)

-- `d.get(k, {})`
unfoldable pub get_or_empty {ℓ} : {K L V : Type ℓ} ⦃e : Eq K⦄ → K → Dict K (Dict L V) → Dict L V
get_or_empty k d = elim (Dict.get k d) [ some inner ↦ inner | none ↦ [] ]

module _ {Row : Type 0} where
  -- `_tables`, which leaves an empty entry behind where there is none
  unfoldable pub touch : Subject → Store Row → Store Row
  touch s store = elim (Dict.get s store) [ some _ ↦ store | none ↦ Dict.put s [] store ]

  unfoldable pub tables : Subject → Store Row → Tables Row
  tables = get_or_empty

  unfoldable pub put_in : String → String → Row → Tables Row → Tables Row
  put_in table key row ts = Dict.put table (Dict.put key row (get_or_empty table ts)) ts

  unfoldable pub put : Subject → String → String → Row → Store Row → Store Row
  unfolding touch tables put_in
  put s table key row store =
      let touched = touch s store in Dict.put s (put_in table key row (tables s touched)) touched

  -- `get` and `rows` also touch the store: the result comes beside it.
  unfoldable pub get : Subject → String → String → Store Row → Option Row × Store Row
  unfolding touch tables
  get s table key store =
      let touched = touch s store in (Dict.get key (get_or_empty table (tables s touched)), touched)

  unfoldable pub rows : Subject → String → Store Row → Dict String Row × Store Row
  unfolding touch tables
  rows s table store =
      let touched = touch s store in (get_or_empty table (tables s touched), touched)

  -- `pop` of an absent table works on a fresh dict and changes nothing.
  unfoldable pub delete_in : String → String → Tables Row → Tables Row
  delete_in table key ts = elim (Dict.get table ts) [
    | some held ↦ Dict.put table (Dict.pop key held) ts
    | none ↦ ts
  ]

  unfoldable pub delete : Subject → String → String → Store Row → Store Row
  unfolding touch tables delete_in
  delete s table key store =
      let touched = touch s store in Dict.put s (delete_in table key (tables s touched)) touched

  unfoldable pub all_rows : String → Store Row → List (String × String × String × Row)
  all_rows table [] = []
  all_rows table ((s, ts) ∷ store) =
      map (λ e. (s.0, s.1, e.0, e.1)) (get_or_empty table ts) ++ all_rows table store

  -- `[k for k, v in rows.items() if expired(v)]`
  unfoldable pub expired_keys : (Row → Bool) → Dict String Row → List String
  expired_keys expired d = map (λ e. e.0) (keep_if (λ e. expired e.1) d)

  unfoldable pub pop_all : List String → Dict String Row → Dict String Row
  pop_all [] d = d
  pop_all (k ∷ ks) d = pop_all ks (Dict.pop k d)

  -- the loop body of `sweep` for one subject: an absent table is not created
  unfoldable pub sweep_in : String → (Row → Bool) → Tables Row → Tables Row
  sweep_in table expired ts = elim (Dict.get table ts) [
    | some held ↦ Dict.put table (pop_all (expired_keys expired held) held) ts
    | none ↦ ts
  ]

  unfoldable pub sweep : String → (Row → Bool) → Store Row → ℕ × Store Row
  sweep table expired [] = (0, [])
  sweep table expired ((s, ts) ∷ store) =
      let (removed, rest) = sweep table expired store in
      (
        length (expired_keys expired (get_or_empty table ts)) + removed,
        (s, sweep_in table expired ts) ∷ rest,
      )
