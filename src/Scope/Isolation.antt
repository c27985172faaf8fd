-- ===== src/Scope/Isolation.antt =====
-- What the handles of scope.py read of each other's tables.
use agents_system.Prelude.{
  Eq, ap, Option-cases, ◌==◌, ◌&&◌, String, string_eq, pair_eq, ◌≡◌, inl, inr, arith, if◌then◌else◌,
  [],
}
use agents_system.Dict
use agents_system.Dict.{Dict}
use agents_system.Dict.Laws.{get-put}
use agents_system.Scope.{
  Subject, Store, Tables, get_or_empty, touch, tables, put_in, put, get, rows, delete_in, delete,
}

get_or_empty-put {ℓ} :
    {K L V : Type ℓ} ⦃e : Eq K⦄ (k j : K) (inner : Dict L V) (d : Dict K (Dict L V))
    → get_or_empty j (Dict.put k inner d) ≡ (if k == j then inner else get_or_empty j d)
unfolding get_or_empty
get_or_empty-put k j inner d = ground (arith, get-put k j inner d)

module _ {Row : Type 0} where
  -- What a handle reads of a table: the result of `rows`.
  abbrev pub view : Subject → String → Store Row → Dict String Row
  view s table store = (rows s table store).0

  tables-touch : (s t : Subject) (store : Store Row) → tables t (touch s store) ≡ tables t store
  unfolding touch tables get_or_empty
  tables-touch s t store = ground (arith, get-put s t [] store)

  rows-tables :
      (s : Subject) (table : String) (store : Store Row)
      → view s table store ≡ get_or_empty table (tables s store)
  unfolding rows
  rows-tables s table store = ap (get_or_empty table) (tables-touch s s store)

  tables-put :
      (s t : Subject) (table key : String) (row : Row) (store : Store Row)
      → tables t (put s table key row store)
        ≡ (if s == t then put_in table key row (tables s store) else tables t store)
  unfolding put
  tables-put s t table key row store = ground (
    arith,
    tables-touch s s store,
    tables-touch s t store,
    get_or_empty-put s t (put_in table key row (tables s (touch s store))) (touch s store),
  )

  tables-delete :
      (s t : Subject) (table key : String) (store : Store Row)
      → tables t (delete s table key store)
        ≡ (if s == t then delete_in table key (tables s store) else tables t store)
  unfolding delete
  tables-delete s t table key store = ground (
    arith,
    tables-touch s s store,
    tables-touch s t store,
    get_or_empty-put s t (delete_in table key (tables s (touch s store))) (touch s store),
  )

  get_or_empty-delete_in :
      (table u key : String) (ts : Tables Row)
      → get_or_empty u (delete_in table key ts)
        ≡ (if table == u then Dict.pop key (get_or_empty table ts) else get_or_empty u ts)
  unfolding delete_in get_or_empty Dict.pop
  get_or_empty-delete_in table u key ts = elim (Option-cases (Dict.get table ts)) [
    | inl absent ↦ ground arith
    | inr (held, present) ↦ ground (arith, get-put table u (Dict.pop key held) ts)
  ]

  -- A write through a handle is what its own reads of that table show; every other table of the
  -- subject, and every table of every other subject, reads as before.
  pub view-put :
      (s t : Subject) (table u key : String) (row : Row) (store : Store Row)
      → view t u (put s table key row store)
        ≡ (if s == t && table == u then Dict.put key row (view s table store) else view t u store)
  unfolding put_in
  view-put s t table u key row store = ground (
    arith,
    rows-tables t u (put s table key row store),
    rows-tables s table store,
    rows-tables t u store,
    tables-put s t table key row store,
    get_or_empty-put table u (Dict.put key row (get_or_empty table (tables s store)))
        (tables s store),
  )

  -- A deletion through a handle removes the row from its own reads of that table and changes no
  -- other table and no other subject.
  pub view-delete :
      (s t : Subject) (table u key : String) (store : Store Row)
      → view t u (delete s table key store)
        ≡ (if s == t && table == u then Dict.pop key (view s table store) else view t u store)
  view-delete s t table u key store = ground (
    arith,
    rows-tables t u (delete s table key store),
    rows-tables s table store,
    rows-tables t u store,
    tables-delete s t table key store,
    get_or_empty-delete_in table u key (tables s store),
  )

  -- A read leaves every read as it was.
  pub view-read :
      (s t : Subject) (table u key : String) (store : Store Row)
      → (view t u (rows s table store).1 ≡ view t u store)
        × (view t u (get s table key store).1 ≡ view t u store)
  unfolding get rows
  view-read s t table u key store =
      let e = rows-tables t u (touch s store) in
      let f = rows-tables t u store in
      let g = tables-touch s t store in (ground arith, ground arith)
