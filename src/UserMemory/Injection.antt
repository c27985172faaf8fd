-- ===== src/UserMemory/Injection.antt =====
-- The block of facts that a prompt is given: `UserFacts.injection_block` of user_memory.py.
pub mod Bounds
use agents_system.Prelude.{
  ℕ, suc, ◌+◌, ◌≤◌, ◌==◌, ◌&&◌, ◌||◌, Bool, true, false, not, Option, none, some, String, string_eq,
  nat_eq, pair_eq, List, [], ◌∷◌, ◌&◌, if◌then◌else◌, map, length, keep_if, count_if, sum_of, ltb,
  leb, sort_by, sort_by-count, any, ◌⊎◌, ◌≡◌, refl, sym, ap, ◌∙◌, subst, arith, Bool-cases, inl,
  inr,
}
use Prim.Native.String as Text
use Prim.Native.String.append as Append
use agents_system.Dict
use agents_system.Scope
use agents_system.Scope.{Subject}
use agents_system.Scope.Isolation.{view-read}
use agents_system.UserMemory.{
  UserMemoryLimits, UserFact, Store, facts_table, is_expired, join, list_facts, all_facts,
  purge_expired, touch,
}
use agents_system.UserMemory.Views.{facts_of}

-- `len` of a text: its characters
unfoldable pub chars : String → ℕ
chars Text.[] = 0
chars (Text.◌∷◌ c s) = suc (chars s)

pub record UntrustedData : Type 0 where
  pub source : String
  pub content : String
  pub max_chars : ℕ

-- The lines and the ids that the loop has gathered.
pub record Packed : Type 0 where
  pub lines : List String
  pub used : List String

abbrev pub line_of : UserFact → String
line_of f = "- " & f.content

-- the loop of `injection_block`
unfoldable pub pack : ℕ → (size : ℕ) → (started : Bool) → List UserFact → Packed
unfolding chars
pack limit size started [] = record { lines = []; used = [] }
pack limit size started (f ∷ fs) =
    let added = chars (line_of f) + (if started then 1 else 0) in
    let fits = leb (size + added) limit in
    let rest = pack limit (if fits then size + added else size) (fits || started) fs in
    if fits then record { lines = line_of f ∷ rest.lines; used = f.id ∷ rest.used } else rest

-- most used first, then most recent
abbrev pub is_ranked_first : UserFact → UserFact → Bool
is_ranked_first f g = ltb g.uses f.uses || f.uses == g.uses && ltb g.last_used_at f.last_used_at

-- the order in which `injection_block` takes the facts
unfoldable pub ranked : List UserFact → List UserFact
ranked fs = sort_by is_ranked_first fs

-- the block of the gathered lines
abbrev pub block_of : UserMemoryLimits → List String → Option UntrustedData
block_of limits [] = none
block_of limits (line ∷ lines) = some (record {
  source = "user_facts";
  content = join "\n" (line ∷ lines);
  max_chars = limits.max_injected_chars;
})

-- `UserFacts.injection_block`
unfoldable pub injection_block :
    UserMemoryLimits → Subject → ℕ → (mark_used : Bool) → Store → Option UntrustedData × Store
unfolding list_facts ranked pack touch
injection_block limits s now mark_used store =
    let (facts, after) = list_facts s now store in
    let packed = pack limits.max_injected_chars 0 false (ranked facts) in
    (
      block_of limits packed.lines,
      elim packed.lines [
        | [] ↦ after
        | line ∷ lines ↦ if mark_used then touch s packed.used now after else after
      ],
    )
