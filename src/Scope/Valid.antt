-- ===== src/Scope/Valid.antt =====
-- Stores of scope.py that hold no key twice, and the writes to them.
use agents_system.Prelude.{
  subst, sym, String, string_eq, pair_eq, [], ◌≡◌, arith, All, Option-cases, inl, inr,
}
use agents_system.Dict
use agents_system.Dict.{Dict}
use agents_system.Dict.Distinct.{Distinct, Distinct-put, Distinct-pop, All-put, All-get}
use agents_system.Scope.{
  Subject, Store, Tables, get_or_empty, touch, tables, put_in, put, delete_in, delete,
}

module _ {Row : Type 0} where
  -- No table name twice for a subject, and no row key twice in a table.
  abbrev pub IsTidy : Tables Row → Type 0
  IsTidy ts = Distinct ts × All (λ p. Distinct p.1) ts

  abbrev pub IsValid : Store Row → Type 0
  IsValid store = Distinct store × All (λ p. IsTidy p.1) store

  get_or_empty-Distinct :
      (table : String) (ts : Tables Row) → IsTidy ts → Distinct (get_or_empty table ts)
  unfolding get_or_empty
  get_or_empty-Distinct table ts (d, a) = elim (Option-cases (Dict.get table ts)) [
    | inl absent ↦ let e : get_or_empty table ts ≡ [] = ground arith in subst Distinct (sym e) tt
    | inr (held, present) ↦
        let e : get_or_empty table ts ≡ held = ground arith in
        subst Distinct (sym e) (All-get Distinct table held ts a present)
  ]

  get_or_empty-IsTidy :
      (s : Subject) (store : Store Row) → IsValid store → IsTidy (get_or_empty s store)
  unfolding get_or_empty
  get_or_empty-IsTidy s store (d, a) = elim (Option-cases (Dict.get s store)) [
    | inl absent ↦ let e : get_or_empty s store ≡ [] = ground arith in subst IsTidy (sym e) (tt, tt)
    | inr (ts, present) ↦
        let e : get_or_empty s store ≡ ts = ground arith in
        subst IsTidy (sym e) (All-get IsTidy s ts store a present)
  ]

  touch-IsValid : (s : Subject) (store : Store Row) → IsValid store → IsValid (touch s store)
  unfolding touch
  touch-IsValid s store (d, a) = elim (Option-cases (Dict.get s store)) [
    | inl absent ↦
        let e : touch s store ≡ Dict.put s [] store = ground arith in
        subst IsValid (sym e) (Distinct-put s [] store d, All-put IsTidy s [] store (tt, tt) a)
    | inr (ts, present) ↦
        let e : touch s store ≡ store = ground arith in subst IsValid (sym e) (d, a)
  ]

  put_in-IsTidy :
      (table key : String) (row : Row) (ts : Tables Row)
      → IsTidy ts
      → IsTidy (put_in table key row ts)
  unfolding put_in
  put_in-IsTidy table key row ts (d, a) =
      let inner = Dict.put key row (get_or_empty table ts) in
      (
        Distinct-put table inner ts d,
        All-put Distinct table inner ts
            (Distinct-put key row (get_or_empty table ts) (get_or_empty-Distinct table ts (d, a)))
            a,
      )

  delete_in-IsTidy :
      (table key : String) (ts : Tables Row) → IsTidy ts → IsTidy (delete_in table key ts)
  unfolding delete_in
  delete_in-IsTidy table key ts (d, a) = elim (Option-cases (Dict.get table ts)) [
    | inl absent ↦ let e : delete_in table key ts ≡ ts = ground arith in subst IsTidy (sym e) (d, a)
    | inr (held, present) ↦
        let e : delete_in table key ts ≡ Dict.put table (Dict.pop key held) ts = ground arith in
        subst IsTidy (sym e) (
          Distinct-put table (Dict.pop key held) ts d,
          All-put Distinct table (Dict.pop key held) ts
              (Distinct-pop key held (All-get Distinct table held ts a present)) a,
        )
  ]

  put-IsValid :
      (s : Subject) (table key : String) (row : Row) (store : Store Row)
      → IsValid store
      → IsValid (put s table key row store)
  unfolding put
  put-IsValid s table key row store v =
      let (d, a) = touch-IsValid s store v in
      let tidy =
        put_in-IsTidy table key row (tables s (touch s store))
          (unfold tables in get_or_empty-IsTidy s (touch s store) (d, a)) in
      (Distinct-put s _ (touch s store) d, All-put IsTidy s _ (touch s store) tidy a)

  delete-IsValid :
      (s : Subject) (table key : String) (store : Store Row)
      → IsValid store
      → IsValid (delete s table key store)
  unfolding delete
  delete-IsValid s table key store v =
      let (d, a) = touch-IsValid s store v in
      let tidy =
        delete_in-IsTidy table key (tables s (touch s store))
          (unfold tables in get_or_empty-IsTidy s (touch s store) (d, a)) in
      (Distinct-put s _ (touch s store) d, All-put IsTidy s _ (touch s store) tidy a)

  -- A store that holds no subject, no table name and no row key twice stays so under a write and
  -- under a deletion.
  pub writes-IsValid :
      (s : Subject) (table key : String) (row : Row) (store : Store Row)
      → IsValid store
      → IsValid (put s table key row store) × IsValid (delete s table key store)
  writes-IsValid s table key row store v =
      (put-IsValid s table key row store v, delete-IsValid s table key store v)
