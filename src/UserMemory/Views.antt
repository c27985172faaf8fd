-- ===== src/UserMemory/Views.antt =====
-- The facts that a handle reads after the writes of user_memory.py.
use agents_system.Prelude.{
  ◌==◌, none, String, string_eq, pair_eq, List, [], ◌∷◌, if◌then◌else◌, keep_if, All, ◌≡◌, refl,
  arith, Bool-cases, Option-cases, inl, inr,
}
use agents_system.Dict
use agents_system.Dict.{Dict}
use agents_system.Dict.Laws.{get-pop}
use agents_system.Dict.Distinct.{Distinct, Distinct-put, Distinct-pop, pop_absent}
use agents_system.Scope
use agents_system.Scope.{Subject}
use agents_system.Scope.Isolation.{view, view-delete, view-read}
use agents_system.UserMemory.{facts_table, UserFact, Store, delete_all, remove}

-- The facts of a subject, by id.
abbrev pub facts_of : Subject → Store → Dict String UserFact
facts_of s store = view s facts_table store

-- Each fact stands under its own id, and no id twice.
pub record IsKeyed (d : Dict String UserFact) : Type 0 where
  pub distinct : Distinct d
  pub own_id : All (λ e. e.0 ≡ e.1.id) d

own_id-put :
    (k : String) (f : UserFact) (d : Dict String UserFact)
    → k ≡ f.id
    → All (λ e. e.0 ≡ e.1.id) d
    → All (λ e. e.0 ≡ e.1.id) (Dict.put k f d)
unfolding Dict.put
own_id-put k f [] same a = (same, tt)
own_id-put k f ((j, g) ∷ d) same (h, a) = elim (Bool-cases (j == k)) [
  | inl e ↦ rw e ((ground arith), a)
  | inr e ↦ rw e (h, own_id-put k f d same a)
]

pub own_id-pop :
    (k : String) (d : Dict String UserFact)
    → All (λ e. e.0 ≡ e.1.id) d
    → All (λ e. e.0 ≡ e.1.id) (Dict.pop k d)
unfolding Dict.pop
own_id-pop k [] a = tt
own_id-pop k ((j, g) ∷ d) (h, a) = elim (Bool-cases (j == k)) [
  | inl e ↦ rw e (own_id-pop k d a)
  | inr e ↦ rw e (h, own_id-pop k d a)
]

pub put-IsKeyed :
    (k : String) (f : UserFact) (d : Dict String UserFact)
    → k ≡ f.id
    → IsKeyed d
    → IsKeyed (Dict.put k f d)
put-IsKeyed k f d same v = record {
  distinct = Distinct-put k f d v.distinct;
  own_id = own_id-put k f d same v.own_id;
}

pub pop_all-IsKeyed :
    (ks : List String) (d : Dict String UserFact) → IsKeyed d → IsKeyed (Scope.pop_all ks d)
unfolding Scope.pop_all
pop_all-IsKeyed [] d v = v
pop_all-IsKeyed (k ∷ ks) d v =
    pop_all-IsKeyed ks (Dict.pop k d)
      (record { distinct = Distinct-pop k d v.distinct; own_id = own_id-pop k d v.own_id })

-- Ids that no fact has may be left out of a removal.
pop_all-present :
    (held d : Dict String UserFact) (ks : List String)
    → ((k : String) → Dict.get k held ≡ none → Dict.get k d ≡ none)
    → Scope.pop_all (keep_if (λ k. Dict.has k held) ks) d ≡ Scope.pop_all ks d
unfolding Scope.pop_all
pop_all-present held d [] h = refl
pop_all-present held d (k ∷ ks) h = elim (Option-cases (Dict.get k held)) [
  | inl e ↦ ground (arith, pop_all-present held d ks h, pop_absent k d (h k e))
  | inr (f, e) ↦
      let rest = pop_all-present held (Dict.pop k d) ks (λ j n. gone j (h j n)) in
      ground (arith, rest)
]
  where
    gone : (j : String) → Dict.get j d ≡ none → Dict.get j (Dict.pop k d) ≡ none
    gone j n = ground (arith, get-pop k j d)

view-delete_all :
    (s t : Subject) (ids : List String) (store : Store)
    → facts_of t (delete_all s ids store)
      ≡ (if s == t then Scope.pop_all ids (facts_of s store) else facts_of t store)
unfolding delete_all Scope.pop_all
view-delete_all s t [] store = elim (Bool-cases (s == t)) [
  | inl e ↦ ground arith
  | inr e ↦ ground arith
]
view-delete_all s t (id ∷ ids) store = ground (
  arith,
  view-delete_all s t ids (Scope.delete s facts_table id store),
  view-delete s t facts_table facts_table id store,
  view-delete s s facts_table facts_table id store,
)

-- What a removal leaves for every subject to read.
pub view-remove :
    (s t : Subject) (ids : List String) (store : Store)
    → facts_of t (remove s ids store).1
      ≡ (if s == t then Scope.pop_all ids (facts_of s store) else facts_of t store)
unfolding remove
view-remove s t ids store =
    let (touched, _) = view-read s t facts_table facts_table "" store in
    let (touched_s, _) = view-read s s facts_table facts_table "" store in
    let kept = keep_if (λ id. Dict.has id (facts_of s store)) ids in
    let all = view-delete_all s t kept (Scope.rows s facts_table store).1 in
    let same = pop_all-present (facts_of s store) (facts_of s store) ids (λ k n. n) in
    ground (arith, all, same, touched, touched_s)
