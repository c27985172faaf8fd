-- ===== src/UserMemory/Cap.antt =====
-- What the purge of expired facts and `_evict` of user_memory.py leave of a user's facts.
use agents_system.Prelude.{
  ℕ, ◌≤◌, ◌==◌, ◌&&◌, Bool, true, false, not, some, String, string_eq, pair_eq, List, if◌then◌else◌,
  keep_if, contains, count_if, count_if-le, ◌≡◌, refl, ap, ◌∙◌, arith,
}
use agents_system.Dict
use agents_system.Dict.{Dict}
use agents_system.Scope
use agents_system.Scope.{Subject}
use agents_system.Scope.Isolation.{view-read}
use agents_system.UserMemory.{
  facts_table, UserFact, UserMemoryLimits, Store, all_facts, is_expired, purge_expired, evict,
  evicted,
}
use agents_system.UserMemory.Views.{facts_of, IsKeyed, pop_all-IsKeyed, view-remove}
use agents_system.UserMemory.Chosen.{
  ids_of, evicted-bounds, count_if-pop_all, get-pop_all, contains-ids, present-count, keep_if-count,
  count_if-keep_if,
}

abbrev pub expired_ids : ℕ → Dict String UserFact → List String
expired_ids now d = ids_of (keep_if (is_expired now) (Dict.values d))

pub view-purge_expired :
    (s t : Subject) (now : ℕ) (store : Store)
    → ((purge_expired s now store).0 ≡ Dict.values (facts_of s store))
      × (facts_of t (purge_expired s now store).1 ≡ (
          if s == t
          then Scope.pop_all (expired_ids now (facts_of s store)) (facts_of s store)
          else facts_of t store))
unfolding purge_expired all_facts
view-purge_expired s t now store =
    let (touched, _) = view-read s t facts_table facts_table "" store in
    let (touched_s, _) = view-read s s facts_table facts_table "" store in
    let v =
      view-remove s t (expired_ids now (facts_of s store)) (Scope.rows s facts_table store).1 in
    (refl, ground (arith, v, touched, touched_s))

-- What an eviction leaves of a dict of facts.
abbrev pub kept : ℕ → String → ℕ → Dict String UserFact → Dict String UserFact
kept max_facts keep now d =
    Scope.pop_all (evicted max_facts keep (keep_if (λ f. not (is_expired now f)) (Dict.values d)))
      (Scope.pop_all (expired_ids now d) d)

pub view-evict :
    (limits : UserMemoryLimits) (s t : Subject) (keep : String) (now : ℕ) (store : Store)
    → facts_of t (evict limits s keep now store)
      ≡ (if s == t then kept limits.max_facts keep now (facts_of s store) else facts_of t store)
unfolding evict
view-evict limits s t keep now store =
    let (held, purged) = view-purge_expired s t now store in
    let (_, purged_s) = view-purge_expired s s now store in
    let rows = keep_if (λ f. not (is_expired now f)) (purge_expired s now store).0 in
    let v = view-remove s t (evicted limits.max_facts keep rows) (purge_expired s now store).1 in
    let rows_eq =
      ap (λ fs. evicted limits.max_facts keep (keep_if (λ f. not (is_expired now f)) fs)) held in
    ground (arith, v, rows_eq, purged, purged_s)

pub kept_within :
    (max_facts : ℕ) (keep : String) (now : ℕ) (f : UserFact) (d : Dict String UserFact)
    → IsKeyed d
    → 1 ≤ max_facts
    → Dict.get keep d ≡ some f
    → is_expired now f ≡ false
    → (count_if (λ g. not (is_expired now g)) (Dict.values (kept max_facts keep now d)) ≤ max_facts)
      × (Dict.get keep (kept max_facts keep now d) ≡ some f)
kept_within max_facts keep now f d v one found fresh = (within, held)
  where
    is_live : UserFact → Bool
    is_live g = not (is_expired now g)

    rows : List UserFact
    rows = keep_if is_live (Dict.values d)

    single : count_if (λ g. g.id == keep) rows ≤ 1
    single = omega (
      arith,
      keep_if-count (λ g. g.id == keep) is_live (Dict.values d),
      count_if-le (λ g. g.id == keep) (λ g. g.id == keep && true) (Dict.values d)
          (λ g h. ground arith),
      present-count keep f (λ g. true) d v.own_id v.distinct found,
    )

    chosen : List String
    chosen = evicted max_facts keep rows

    bounds :
        (count_if (λ g. not (contains g.id chosen)) rows ≤ max_facts)
        × (contains keep chosen ≡ false)
    bounds = evicted-bounds max_facts keep rows one single

    purged : IsKeyed (Scope.pop_all (expired_ids now d) d)
    purged = pop_all-IsKeyed (expired_ids now d) d v

    not_purged : contains keep (expired_ids now d) ≡ false
    not_purged = contains-ids keep (keep_if (is_expired now) (Dict.values d)) (
        count_if-keep_if (λ g. g.id == keep) (is_expired now) (Dict.values d)
        ∙ present-count keep f (is_expired now) d v.own_id v.distinct found
        ∙ (rw fresh refl))

    held : Dict.get keep (kept max_facts keep now d) ≡ some f
    held =
        get-pop_all keep chosen (Scope.pop_all (expired_ids now d) d) bounds.1
        ∙ get-pop_all keep (expired_ids now d) d not_purged
        ∙ found

    within : count_if is_live (Dict.values (kept max_facts keep now d)) ≤ max_facts
    within =
        let r : UserFact → Bool = λ g. is_live g && not (contains g.id chosen) in
        let q : UserFact → Bool = λ g. not (contains g.id chosen) in
        omega (
          arith,
          count_if-pop_all is_live chosen (Scope.pop_all (expired_ids now d) d) purged.own_id,
          count_if-pop_all r (expired_ids now d) d v.own_id,
          count_if-le (λ g. r g && not (contains g.id (expired_ids now d))) (λ g. q g && is_live g)
              (Dict.values d) (λ g h. ground arith),
          count_if-keep_if q is_live (Dict.values d),
          bounds.0,
        )
