-- ===== src/Tests/UserMemory.antt =====
-- The facts of two users, under a limit of two facts each.
use agents_system.Prelude.{
  ℕ, ◌+◌, ◌==◌, Bool, true, false, none, some, String, List, string_eq, pair_eq, String_discrete,
  ℕ_discrete, pair_discrete, [], ◌∷◌, ok, err, length, if◌then◌else◌, map, count_if, leb, ◌≤◌, ◌⊎◌,
  ◌≡◌, refl,
}
use agents_system.Dict
use agents_system.Scope
use agents_system.Scope.{Subject}
use agents_system.UserMemory
use agents_system.UserMemory.{
  UserMemoryLimits, UserFact, Store, Texts, normalize, post_init, remember, join, is_empty,
  too_long, forget, list_facts, facts_table,
}
use agents_system.UserMemory.Views.{facts_of, IsKeyed}
use agents_system.UserMemory.Remembered.{IsRemembered, remember-IsRemembered}
use agents_system.UserMemory.FactStore
use agents_system.UserMemory.Injection
use agents_system.UserMemory.Injection.{UntrustedData, chars, line_of, injection_block}
use agents_system.UserMemory.Injection.Bounds.{live_facts, injection_block-bounds}
use agents_system.UserMemory.FactStore.{delete_facts, delete_facts-erases}

runs : Unit {0}
unfolding String_discrete ℕ_discrete pair_discrete Dict.get Dict.put Dict.pop Scope.get_or_empty
    Scope.touch Scope.tables Scope.put_in Scope.put Scope.rows Scope.delete_in Scope.delete
    UserMemory.post_init UserMemory.is_expired UserMemory.join UserMemory.normalize
    UserMemory.fact_id UserMemory.all_facts UserMemory.delete_all UserMemory.remove
    UserMemory.purge_expired UserMemory.list_facts UserMemory.is_evicted_first UserMemory.take
    UserMemory.evicted UserMemory.evict UserMemory.find_live UserMemory.new_fact
    UserMemory.remember_text UserMemory.remember UserMemory.forget FactStore.delete_facts
    Injection.chars Injection.pack Injection.ranked Injection.injection_block UserMemory.touch_all
    UserMemory.touch
runs = tt

abbrev anna : Subject
anna = ("sales", "participant:1")

abbrev bob : Subject
bob = ("sales", "participant:2")

-- texts without spaces, which are their own digests
abbrev plain : Texts
plain = record { split = λ s. s ∷ []; digest = λ s. s }

abbrev limits : UserMemoryLimits
limits = record { max_facts = 2; max_fact_bytes = 10; max_injected_chars = 100; ttl_s = some 1 }

abbrev fact : String → ℕ → ℕ → UserFact
fact text uses at = record {
  id = text;
  content = text;
  created_at = at;
  last_used_at = at;
  uses = uses;
  expires_at = some (at + 1_000_000);
}

abbrev stored : Store
stored =
    (anna, (facts_table, ("kg", fact "kg" 3 10) ∷ ("red", fact "red" 0 20) ∷ []) ∷ [])
    ∷ (bob, (facts_table, ("lb", fact "lb" 0 10) ∷ []) ∷ [])
    ∷ []

-- The fact that was used least makes room for the new one.
abbrev after : Store
after =
    (anna, (facts_table, ("kg", fact "kg" 3 10) ∷ ("blue", fact "blue" 0 50) ∷ []) ∷ [])
    ∷ (bob, (facts_table, ("lb", fact "lb" 0 10) ∷ []) ∷ [])
    ∷ []

remembered : remember plain limits anna (some "blue") 50 stored ≡ ok (fact "blue" 0 50, after)
unfolding runs
remembered = refl

test_empty : remember plain limits anna (some "") 50 stored ≡ err is_empty
unfolding runs
test_empty = refl

test_too_long : remember plain limits anna (some "abcdefghijk") 50 stored ≡ err (too_long 11)
unfolding runs
test_too_long = refl

test_list : (list_facts anna 1_000_015 stored).0 ≡ fact "red" 0 20 ∷ []
unfolding runs
test_list = refl

test_forget : (forget anna (some "lb") stored).0 ≡ false
unfolding runs
test_forget = refl

valid : post_init limits ≡ true
unfolding runs
valid = refl

keyed : IsKeyed (facts_of anna stored)
unfolding runs
keyed = record { distinct = (refl, (refl, tt)); own_id = (refl, (refl, tt)) }

remember-IsRemembered_example :
    IsRemembered limits anna (normalize plain "blue") 50 stored (fact "blue" 0 50) after
remember-IsRemembered_example =
    remember-IsRemembered plain limits anna "blue" 50 stored after (fact "blue" 0 50) valid keyed
      remembered

test_erased : (delete_facts anna stored).0 ≡ 2
unfolding runs
test_erased = refl

delete_facts-erases_example :
    ((delete_facts anna stored).0 ≡ length (facts_of anna stored))
    × ((u : Subject)
        → facts_of u (delete_facts anna stored).1 ≡ (if anna == u then [] else facts_of u stored))
delete_facts-erases_example = delete_facts-erases anna stored keyed

test_block : injection_block (record limits { max_injected_chars = 8 }) anna 50 true stored ≡ (
  some (record { source = "user_facts"; content = "- kg"; max_chars = 8 }),
  (
    anna,
    (
      facts_table,
      ("kg", record (fact "kg" 4 10) { last_used_at = 50; expires_at = some 1_000_010 })
          ∷ ("red", fact "red" 0 20)
          ∷ [],
    )
        ∷ [],
  )
      ∷ (bob, (facts_table, ("lb", fact "lb" 0 10) ∷ []) ∷ [])
      ∷ [],
)
unfolding runs
test_block = refl

injection_block-bounds_example :
    let block = (injection_block limits anna 50 true stored).0 in
    let live = live_facts anna 50 stored in
    ((block ≡ none) × (count_if (λ f. leb (chars (line_of f)) limits.max_injected_chars) live ≡ 0))
    ⊎ ((b : UntrustedData) × (gs : List UserFact) × (block ≡ some b)
        × (b.content ≡ join "\n" (map line_of gs))
        × (1 ≤ length gs)
        × ((q : UserFact → Bool) → count_if q gs ≤ count_if q live)
        × (chars b.content ≤ limits.max_injected_chars))
injection_block-bounds_example = injection_block-bounds limits anna 50 true stored
