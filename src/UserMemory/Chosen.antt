-- ===== src/UserMemory/Chosen.antt =====
-- The facts that `_evict` of user_memory.py chooses, and what is left without them.
use agents_system.Prelude.{
  ℕ, suc, ◌+◌, ◌-◌, ◌≤◌, ◌==◌, ◌&&◌, Bool, true, false, not, none, some, String, string_eq, pair_eq,
  List, [], ◌∷◌, if◌then◌else◌, map, keep_if, contains, count_if, length, All, sort_by,
  sort_by-length, sort_by-count, count_if-le, ◌≡◌, refl, ap, ◌∙◌, arith, Bool-cases, inl, inr,
}
use agents_system.Dict
use agents_system.Dict.{Dict}
use agents_system.Dict.Laws.{get-pop}
use agents_system.Dict.Distinct.{Distinct}
use agents_system.Scope
use agents_system.UserMemory.Views.{own_id-pop}
use agents_system.UserMemory.{UserFact, take, evicted, is_evicted_first}

-- The ids of some facts.
abbrev pub ids_of : List UserFact → List String
ids_of = map (λ f. f.id)

values-pop :
    (k : String) (d : Dict String UserFact)
    → All (λ e. e.0 ≡ e.1.id) d
    → Dict.values (Dict.pop k d) ≡ keep_if (λ f. not (f.id == k)) (Dict.values d)
unfolding Dict.pop
values-pop k [] a = refl
values-pop k ((j, g) ∷ d) (h, a) = ground (arith, values-pop k d a)

keep_if-others :
    (p : UserFact → Bool) (fs : List UserFact)
    → length (keep_if (λ f. not (p f)) fs) + count_if p fs ≡ length fs
keep_if-others p [] = refl
keep_if-others p (f ∷ fs) = ground (arith, keep_if-others p fs)

count_if-others :
    (p : UserFact → Bool) (fs : List UserFact) → count_if p (keep_if (λ f. not (p f)) fs) ≡ 0
count_if-others p [] = refl
count_if-others p (f ∷ fs) = ground (arith, count_if-others p fs)

pub keep_if-count :
    (p q : UserFact → Bool) (fs : List UserFact) → count_if p (keep_if q fs) ≤ count_if p fs
keep_if-count p q [] = omega arith
keep_if-count p q (f ∷ fs) = ground (arith, keep_if-count p q fs)

count_if-not :
    (p : UserFact → Bool) (fs : List UserFact)
    → count_if (λ f. not (p f)) fs + count_if p fs ≡ length fs
count_if-not p [] = refl
count_if-not p (f ∷ fs) = ground (arith, count_if-not p fs)

pub count_if-keep_if :
    (p q : UserFact → Bool) (fs : List UserFact)
    → count_if p (keep_if q fs) ≡ count_if (λ f. p f && q f) fs
count_if-keep_if p q [] = refl
count_if-keep_if p q (f ∷ fs) = ground (arith, count_if-keep_if p q fs)

take-length : (n : ℕ) (fs : List UserFact) → n ≤ length fs → length (take n fs) ≡ n
unfolding take
take-length Prim.Native.Nat.zero fs h = refl
take-length (Prim.Native.Nat.suc n) [] h = absurd (omega arith)
take-length (Prim.Native.Nat.suc n) (f ∷ fs) h = ap suc (take-length n fs (omega arith))

take-count :
    (p : UserFact → Bool) (n : ℕ) (fs : List UserFact) → count_if p (take n fs) ≤ count_if p fs
unfolding take
take-count p Prim.Native.Nat.zero fs = omega arith
take-count p (Prim.Native.Nat.suc n) [] = omega arith
take-count p (Prim.Native.Nat.suc n) (f ∷ fs) = ground (arith, take-count p n fs)

take-All :
    (p : UserFact → Bool) (n : ℕ) (fs : List UserFact)
    → count_if p fs ≡ 0
    → count_if p (take n fs) ≡ 0
take-All p n fs h = omega (arith, h, take-count p n fs)

pub contains-ids :
    (k : String) (fs : List UserFact)
    → count_if (λ f. f.id == k) fs ≡ 0
    → contains k (ids_of fs) ≡ false
contains-ids k [] h = refl
contains-ids k (f ∷ fs) h = ground (arith, contains-ids k fs)

count_if-ids :
    (ks : List String) (fs : List UserFact)
    → ((k : String) → contains k (ids_of fs) ≡ true → contains k ks ≡ true)
    → count_if (λ f. contains f.id ks) fs ≡ length fs
count_if-ids ks [] h = refl
count_if-ids ks (f ∷ fs) h =
    let rest = count_if-ids ks fs (λ k e. h k (ground arith)) in
    let here : contains f.id ks ≡ true = h f.id (ground arith) in ground arith

-- What is left of live rows without the chosen ones is within the limit, where at most one of them
-- is the one to keep, and the chosen ones do not include it.
pub evicted-bounds :
    (max_facts : ℕ) (keep : String) (rows : List UserFact)
    → 1 ≤ max_facts
    → count_if (λ f. f.id == keep) rows ≤ 1
    → (count_if (λ f. not (contains f.id (evicted max_facts keep rows))) rows ≤ max_facts)
      × (contains keep (evicted max_facts keep rows) ≡ false)
unfolding evicted
evicted-bounds max_facts keep rows one single = (bound, spared)
  where
    others : List UserFact
    others = keep_if (λ f. not (f.id == keep)) rows

    ranked : List UserFact
    ranked = sort_by is_evicted_first others

    chosen : List UserFact
    chosen = take (length rows - max_facts) ranked

    is_chosen : UserFact → Bool
    is_chosen f = contains f.id (ids_of chosen)

    ranked_length : length ranked + count_if (λ f. f.id == keep) rows ≡ length rows
    ranked_length =
        ap (λ n. n + count_if (λ f. f.id == keep) rows) (sort_by-length is_evicted_first others)
        ∙ keep_if-others (λ f. f.id == keep) rows

    removed : length chosen ≤ count_if is_chosen rows
    removed = omega (
      arith,
      count_if-ids (ids_of chosen) chosen (λ k e. e),
      take-count is_chosen (length rows - max_facts) ranked,
      sort_by-count is_evicted_first is_chosen others,
      keep_if-count is_chosen (λ f. not (f.id == keep)) rows,
    )

    enough : length chosen ≡ length rows - max_facts
    enough =
        take-length (length rows - max_facts) ranked (omega (arith, ranked_length, single, one))

    bound : count_if (λ f. not (contains f.id (ids_of chosen))) rows ≤ max_facts
    bound = omega (arith, count_if-not is_chosen rows, removed, enough)

    spared : contains keep (ids_of chosen) ≡ false
    spared = contains-ids keep chosen (
        take-All (λ f. f.id == keep) (length rows - max_facts) ranked
          (sort_by-count is_evicted_first (λ f. f.id == keep) others
            ∙ count_if-others (λ f. f.id == keep) rows))

-- What a removal leaves is none of the removed ids.
pub count_if-pop_all :
    (p : UserFact → Bool) (ks : List String) (d : Dict String UserFact)
    → All (λ e. e.0 ≡ e.1.id) d
    → count_if p (Dict.values (Scope.pop_all ks d))
      ≤ count_if (λ f. p f && not (contains f.id ks)) (Dict.values d)
unfolding Scope.pop_all
count_if-pop_all p [] d a = count_if-le p (λ f. p f && true) (Dict.values d) (λ f h. ground arith)
count_if-pop_all p (k ∷ ks) d a =
    let q : UserFact → Bool = λ f. p f && not (contains f.id ks) in
    let rest = count_if-pop_all p ks (Dict.pop k d) (own_id-pop k d a) in
    let popped =
      ap (count_if q) (values-pop k d a)
      ∙ count_if-keep_if q (λ f. not (f.id == k)) (Dict.values d) in
    let both =
      count_if-le (λ f. q f && not (f.id == k)) (λ f. p f && not (contains f.id (k ∷ ks)))
        (Dict.values d) (λ f h. ground arith) in
    omega (arith, rest, popped, both)

pub get-pop_all :
    (k : String) (ks : List String) (d : Dict String UserFact)
    → contains k ks ≡ false
    → Dict.get k (Scope.pop_all ks d) ≡ Dict.get k d
unfolding Scope.pop_all
get-pop_all k [] d h = refl
get-pop_all k (j ∷ ks) d h = ground (arith, get-pop_all k ks (Dict.pop j d), get-pop j k d)

-- An id that the dict does not have is no fact's, and one that it has is one fact's.
absent-count :
    (k : String) (p : UserFact → Bool) (d : Dict String UserFact)
    → All (λ e. e.0 ≡ e.1.id) d
    → Dict.get k d ≡ none
    → count_if (λ f. f.id == k && p f) (Dict.values d) ≡ 0
unfolding Dict.get
absent-count k p [] a h = refl
absent-count k p ((j, g) ∷ d) (own, a) h = ground (arith, absent-count k p d a)

pub present-count :
    (k : String) (f : UserFact) (p : UserFact → Bool) (d : Dict String UserFact)
    → All (λ e. e.0 ≡ e.1.id) d
    → Distinct d
    → Dict.get k d ≡ some f
    → count_if (λ g. g.id == k && p g) (Dict.values d) ≡ (if p f then 1 else 0)
unfolding Dict.get
present-count k f p [] a n h = absurd (cc)
present-count k f p ((j, g) ∷ d) (own, a) (new, n) h = elim (Bool-cases (j == k)) [
  | inl e ↦
      let same : g ≡ f = ground arith in
      let rest = absent-count k p d a (ground arith) in ground arith
  | inr e ↦ ground (arith, present-count k f p d a n)
]
