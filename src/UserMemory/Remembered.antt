-- ===== src/UserMemory/Remembered.antt =====
-- What is stored of a user after `UserFacts.remember` of user_memory.py.
use agents_system.Prelude.{
  ℕ, ◌≤◌, ◌==◌, true, false, not, Option, some, String, string_eq, pair_eq, if◌then◌else◌, keep_if,
  count_if, ◌≡◌, refl, sym, subst, arith, Option-cases, inl, inr, ok,
}
use agents_system.Dict
use agents_system.Dict.{Dict}
use agents_system.Dict.Laws.{get-put}
use agents_system.Scope
use agents_system.Scope.{Subject}
use agents_system.Scope.Isolation.{view-put}
use agents_system.UserMemory.{
  facts_table, UserFact, UserMemoryLimits, post_init, Store, is_expired, purge_expired, evicted,
  normalize, remember, remember_text, new_fact, find_live, Texts, fact_id,
}
use agents_system.UserMemory.Views.{facts_of, IsKeyed, put-IsKeyed, pop_all-IsKeyed}
use agents_system.UserMemory.Cap.{expired_ids, kept, view-purge_expired, view-evict, kept_within}

new_fact_fresh :
    (limits : UserMemoryLimits) (key text : String) (now : ℕ) (existing : Option UserFact)
    → post_init limits ≡ true
    → (1 ≤ limits.max_facts) × (is_expired now (new_fact limits key text now existing) ≡ false)
unfolding post_init is_expired new_fact
new_fact_fresh limits key text now existing h = elim (Option-cases limits.ttl_s) [
  | inl e ↦ (ground arith, ground arith)
  | inr (s, e) ↦ (ground arith, ground arith)
]

-- What `_remember` leaves, written over what each subject reads.
view-remember_text :
    (t : Texts) (limits : UserMemoryLimits) (s u : Subject) (text : String) (now : ℕ)
    (store : Store)
    → let (fact, after) = remember_text t limits s text now store in
      let held = facts_of s store in
      facts_of u after ≡ (
        if s == u
        then kept limits.max_facts
            (fact_id t text)
            now
            (Dict.put (fact_id t text) fact (Scope.pop_all (expired_ids now held) held))
        else facts_of u store)
unfolding remember_text
view-remember_text t limits s u text now store =
    let key = fact_id t text in
    let fact = (remember_text t limits s text now store).0 in
    let (_, purged) = view-purge_expired s u now store in
    let (_, purged_s) = view-purge_expired s s now store in
    let before = (purge_expired s now store).1 in
    let put_u = view-put s u facts_table facts_table key fact before in
    let put_s = view-put s s facts_table facts_table key fact before in
    let v = view-evict limits s u key now (Scope.put s facts_table key fact before) in
    ground (arith, v, put_u, put_s, purged, purged_s)

-- What is stored once a fact is remembered: the fact under its id, with the given text and not
-- expired; at most `max_facts` facts that are not expired, each under its own id and no id twice; and
-- the facts of every other user as they were.
pub record IsRemembered (limits : UserMemoryLimits) (s : Subject) (text : String) (now : ℕ)
    (store : Store) (fact : UserFact) (after : Store) : Type 0 where
  pub content : fact.content ≡ text
  pub fresh : is_expired now fact ≡ false
  pub stored : Dict.get fact.id (facts_of s after) ≡ some fact
  pub capped :
      count_if (λ f. not (is_expired now f)) (Dict.values (facts_of s after)) ≤ limits.max_facts
  pub keyed : IsKeyed (facts_of s after)
  pub isolated :
      (u : Subject) → facts_of u after ≡ (if s == u then facts_of s after else facts_of u store)

remember_text-IsRemembered :
    (t : Texts) (limits : UserMemoryLimits) (s : Subject) (text : String) (now : ℕ) (store : Store)
    → post_init limits ≡ true
    → IsKeyed (facts_of s store)
    → let (fact, after) = remember_text t limits s text now store in
      IsRemembered limits s text now store fact after
unfolding remember_text new_fact
remember_text-IsRemembered t limits s text now store valid v = record {
  content = refl;
  fresh = news.1;
  stored = subst (λ d. Dict.get key d ≡ some fact) (sym seen) bounds.1;
  capped =
      subst (λ d. count_if (λ f. not (is_expired now f)) (Dict.values d) ≤ limits.max_facts)
        (sym seen) bounds.0;
  keyed = subst IsKeyed (sym seen) keyed;
  isolated = alone;
}
  where
    alone :
        (u : Subject)
        → facts_of u (remember_text t limits s text now store).1 ≡ (
            if s == u
            then facts_of s (remember_text t limits s text now store).1
            else facts_of u store)
    alone u = ground (
      arith,
      view-remember_text t limits s u text now store,
      view-remember_text t limits s s text now store,
    )

    key : String
    key = fact_id t text

    fact : UserFact
    fact = (remember_text t limits s text now store).0

    existing : Option UserFact
    existing = find_live now key (purge_expired s now store).0

    news : (1 ≤ limits.max_facts) × (is_expired now (new_fact limits key text now existing) ≡ false)
    news = new_fact_fresh limits key text now existing valid

    written : Dict String UserFact
    written =
        Dict.put key fact (Scope.pop_all (expired_ids now (facts_of s store)) (facts_of s store))

    written-IsKeyed : IsKeyed written
    written-IsKeyed =
        put-IsKeyed key fact (Scope.pop_all (expired_ids now (facts_of s store)) (facts_of s store))
          refl (pop_all-IsKeyed (expired_ids now (facts_of s store)) (facts_of s store) v)

    found : Dict.get key written ≡ some fact
    found = ground (
      arith,
      get-put key key fact (Scope.pop_all (expired_ids now (facts_of s store)) (facts_of s store)),
    )

    bounds :
        (count_if
            (λ g. not (is_expired now g))
            (Dict.values (kept limits.max_facts key now written))
          ≤ limits.max_facts)
        × (Dict.get key (kept limits.max_facts key now written) ≡ some fact)
    bounds = kept_within limits.max_facts key now fact written written-IsKeyed news.0 found news.1

    keyed : IsKeyed (kept limits.max_facts key now written)
    keyed =
        pop_all-IsKeyed
          (evicted limits.max_facts key
            (keep_if (λ f. not (is_expired now f)) (Dict.values written)))
          (Scope.pop_all (expired_ids now written) written)
          (pop_all-IsKeyed (expired_ids now written) written written-IsKeyed)

    seen :
        facts_of s (remember_text t limits s text now store).1
        ≡ kept limits.max_facts key now written
    seen = ground (arith, view-remember_text t limits s s text now store)

-- Under limits that are accepted, whatever is remembered is stored: it is the fact under its id, with
-- the normal text of the content and not expired. The user then has at most `max_facts` facts that are
-- not expired, each under its own id and no id twice, and no other user's facts have changed.
pub remember-IsRemembered :
    (t : Texts) (limits : UserMemoryLimits) (s : Subject) (content : String) (now : ℕ)
    (store after : Store) (fact : UserFact)
    → post_init limits ≡ true
    → IsKeyed (facts_of s store)
    → remember t limits s (some content) now store ≡ ok (fact, after)
    → IsRemembered limits s (normalize t content) now store fact after
unfolding remember
remember-IsRemembered t limits s content now store after fact valid v h =
    let text = normalize t content in
    let done : remember_text t limits s text now store ≡ (fact, after) = ground arith in
    subst (λ r. IsRemembered limits s text now store r.0 r.1) done
      (remember_text-IsRemembered t limits s text now store valid v)
