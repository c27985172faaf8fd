-- ===== src/UserMemory/Injection/Bounds.antt =====
-- The size and the lines of the block that `injection_block` of user_memory.py makes.
use agents_system.Prelude.{
  ℕ, ◌+◌, ◌≤◌, Bool, true, false, not, Option, none, some, String, string_eq, nat_eq, pair_eq, List,
  [], ◌∷◌, ◌&◌, if◌then◌else◌, map, length, keep_if, count_if, sum_of, ltb, leb, sort_by,
  sort_by-count, any, ◌⊎◌, ◌≡◌, refl, sym, ap, ◌∙◌, subst, arith, Bool-cases, inl, inr,
}
use Prim.Native.String as Text
use Prim.Native.String.append as Append
use agents_system.Dict
use agents_system.Scope.{Subject}
use agents_system.Scope.Isolation.{view-read}
use agents_system.UserMemory.{
  UserMemoryLimits, UserFact, Store, facts_table, is_expired, join, list_facts, all_facts,
  purge_expired,
}
use agents_system.UserMemory.Views.{facts_of}
use agents_system.UserMemory.Injection.{
  chars, UntrustedData, Packed, line_of, pack, is_ranked_first, ranked, block_of, injection_block,
}

chars-append : (a b : String) → chars (a & b) ≡ chars a + chars b
unfolding chars
chars-append Text.[] b = omega (arith, ap chars (Append.nil b))
chars-append (Text.◌∷◌ c a) b = omega (arith, ap chars (Append.cons c a b), chars-append a b)

-- The characters of lines that each follow a newline.
abbrev total : List String → ℕ
total = sum_of (λ l. chars l + 1)

newline : chars "\n" ≡ 1
unfolding chars
newline = refl

chars-join : (l : String) (ls : List String) → chars (join "\n" (l ∷ ls)) ≡ chars l + total ls
unfolding join
chars-join l [] = omega arith
chars-join l (k ∷ ls) = omega (
  arith,
  newline,
  chars-append l ("\n" & join "\n" (k ∷ ls)),
  chars-append "\n" (join "\n" (k ∷ ls)),
  chars-join k ls,
)

pack_started :
    (limit size : ℕ) (fs : List UserFact)
    → size ≤ limit
    → size + total (pack limit size true fs).lines ≤ limit
unfolding pack
pack_started limit size [] h = omega arith
pack_started limit size (f ∷ fs) h =
    elim (Bool-cases (leb (size + (chars (line_of f) + 1)) limit)) [
      | inl e ↦
          let rest = pack_started limit (size + (chars (line_of f) + 1)) fs (ground arith) in
          ground arith
      | inr e ↦ let rest = pack_started limit size fs h in ground arith
    ]

pack_first :
    (limit : ℕ) (fs : List UserFact) → chars (join "\n" (pack limit 0 false fs).lines) ≤ limit
unfolding pack join chars
pack_first limit [] = omega arith
pack_first limit (f ∷ fs) = elim (Bool-cases (leb (0 + (chars (line_of f) + 0)) limit)) [
  | inl e ↦
      let rest = pack_started limit (0 + (chars (line_of f) + 0)) fs (ground arith) in
      let whole = chars-join (line_of f) (pack limit (0 + (chars (line_of f) + 0)) true fs).lines in
      ground arith
  | inr e ↦ let rest = pack_first limit fs in ground arith
]

pack_none :
    (limit : ℕ) (fs : List UserFact)
    → (pack limit 0 false fs).lines ≡ []
    → count_if (λ f. leb (chars (line_of f)) limit) fs ≡ 0
unfolding pack
pack_none limit [] h = refl
pack_none limit (f ∷ fs) h = elim (Bool-cases (leb (0 + (chars (line_of f) + 0)) limit)) [
  | inl e ↦ absurd (ground arith)
  | inr e ↦ let rest = pack_none limit fs in ground arith
]

-- The lines are those of some of the facts.
abbrev Chosen : Packed → List UserFact → Type 0
Chosen p fs =
    (gs : List UserFact) × (p.lines ≡ map line_of gs)
    × (p.used ≡ map (λ f. f.id) gs)
    × ((q : UserFact → Bool) → count_if q gs ≤ count_if q fs)

pack-Chosen :
    (limit size : ℕ) (started : Bool) (fs : List UserFact) → Chosen (pack limit size started fs) fs
unfolding pack
pack-Chosen limit size started [] = ([], refl, refl, λ q. omega arith)
pack-Chosen limit size started (f ∷ fs) =
    elim (Bool-cases (leb (size + (chars (line_of f) + (if started then 1 else 0))) limit)) [
      | inl e ↦
          let (gs, lines, used, within) =
            pack-Chosen limit (size + (chars (line_of f) + (if started then 1 else 0))) true fs in
          (f ∷ gs, (ground arith), (ground arith), (λ q. let w = within q in ground arith))
      | inr e ↦
          let (gs, lines, used, within) = pack-Chosen limit size started fs in
          (gs, (ground arith), (ground arith), (λ q. let w = within q in ground arith))
    ]

-- The facts of a subject that are not expired.
abbrev pub live_facts : Subject → ℕ → Store → List UserFact
live_facts s now store = keep_if (λ f. not (is_expired now f)) (Dict.values (facts_of s store))

listed :
    (s : Subject) (now : ℕ) (store : Store)
    → (list_facts s now store).0
      ≡ sort_by (λ f g. ltb g.created_at f.created_at) (live_facts s now store)
unfolding list_facts purge_expired all_facts
listed s now store =
    let again = (view-read s s facts_table facts_table "" store).0 in
    elim (Bool-cases (any (is_expired now) (Dict.values (facts_of s store)))) [
      | inl e ↦ ground (arith, again)
      | inr e ↦ ground arith
    ]

some_fact :
    (gs : List UserFact) (l : String) (ls : List String) → l ∷ ls ≡ map line_of gs → 1 ≤ length gs
some_fact [] l ls e = absurd (cc)
some_fact (g ∷ gs) l ls e = omega arith

-- The block is nothing exactly where no fact of the user that is not expired would fit it alone.
-- Otherwise it holds one line for each of some facts, each of them a fact of the user that is not
-- expired, and has at most `max_injected_chars` characters.
pub injection_block-bounds :
    (limits : UserMemoryLimits) (s : Subject) (now : ℕ) (mark_used : Bool) (store : Store)
    → let block = (injection_block limits s now mark_used store).0 in
      let live = live_facts s now store in
      ((block ≡ none)
        × (count_if (λ f. leb (chars (line_of f)) limits.max_injected_chars) live ≡ 0))
      ⊎ ((b : UntrustedData) × (gs : List UserFact) × (block ≡ some b)
          × (b.content ≡ join "\n" (map line_of gs))
          × (1 ≤ length gs)
          × ((q : UserFact → Bool) → count_if q gs ≤ count_if q live)
          × (chars b.content ≤ limits.max_injected_chars))
unfolding injection_block ranked
injection_block-bounds limits s now mark_used store = from packed.lines refl
  where
    max : ℕ
    max = limits.max_injected_chars

    facts : List UserFact
    facts = (list_facts s now store).0

    live : List UserFact
    live = live_facts s now store

    packed : Packed
    packed = pack max 0 false (ranked facts)

    counts : (q : UserFact → Bool) → count_if q (ranked facts) ≡ count_if q live
    counts q =
        sort_by-count is_ranked_first q facts
        ∙ ap (count_if q) (listed s now store)
        ∙ sort_by-count (λ f g. ltb g.created_at f.created_at) q live

    block : Option UntrustedData
    block = (injection_block limits s now mark_used store).0

    from :
        (lines : List String)
        → packed.lines ≡ lines
        → ((block ≡ none) × (count_if (λ f. leb (chars (line_of f)) max) live ≡ 0))
          ⊎ ((b : UntrustedData) × (gs : List UserFact) × (block ≡ some b)
              × (b.content ≡ join "\n" (map line_of gs))
              × (1 ≤ length gs)
              × ((q : UserFact → Bool) → count_if q gs ≤ count_if q live)
              × (chars b.content ≤ max))
    from [] e = inl (
      ap (block_of limits) e,
      omega (arith, counts (λ f. leb (chars (line_of f)) max), pack_none max (ranked facts) e),
    )
    from (l ∷ ls) e =
        let (gs, lines, used, within) = pack-Chosen max 0 false (ranked facts) in
        let b : UntrustedData = record {
          source = "user_facts";
          content = join "\n" (l ∷ ls);
          max_chars = max;
        } in
        inr (
          b,
          gs,
          ap (block_of limits) e,
          ap (join "\n") (sym e ∙ lines),
          some_fact gs l ls (sym e ∙ lines),
          (λ q. omega (arith, within q, counts q)),
          subst (λ xs. chars (join "\n" xs) ≤ max) e (pack_first max (ranked facts)),
        )
