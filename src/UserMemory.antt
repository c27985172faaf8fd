-- ===== src/UserMemory.antt =====
-- The durable facts about a user: `UserFacts` and `InMemoryFactBackend` of user_memory.py, over the
-- per-user store. `str.split` and the digest of a fact's text are arguments. The lock of a
-- read-modify-write is not modelled: each call is one step.
pub mod Chosen
pub mod Views
pub mod Cap
pub mod Remembered
pub mod FactStore
pub mod Injection
use agents_system.Prelude.{
  ℕ, ◌+◌, ◌-◌, ◌*◌, ◌==◌, ◌&&◌, ◌||◌, Bool, true, false, not, Option, none, some, String, string_eq,
  nat_eq, pair_eq, List, [], ◌∷◌, ◌++◌, ◌&◌, if◌then◌else◌, ltb, leb, map, keep_if, length, any,
  contains, holds, sort_by, Result, ok, err,
}
use Prim.Native.String as Text
use agents_system.Dict
use agents_system.Scope
use agents_system.Scope.{Subject}

abbrev pub facts_table : String
facts_table = "subject_facts"

pub record UserMemoryLimits : Type 0 where
  pub max_facts : ℕ
  pub max_fact_bytes : ℕ
  pub max_injected_chars : ℕ
  pub ttl_s : Option ℕ

-- `UserMemoryLimits.__post_init__`, whether it accepts
unfoldable pub post_init : UserMemoryLimits → Bool
post_init l =
    leb 1 l.max_facts
    && leb 1 l.max_fact_bytes
    && leb 1 l.max_injected_chars
    && not (holds (λ s. ltb s 1) l.ttl_s)

pub record UserFact : Type 0 where
  pub id : String
  pub content : String
  pub created_at : ℕ
  pub last_used_at : ℕ
  pub uses : ℕ
  pub expires_at : Option ℕ

abbrev pub Store : Type 0
Store = Scope.Store UserFact

-- `UserFact.expired`
unfoldable pub is_expired : ℕ → UserFact → Bool
is_expired now f = holds (λ at. leb at now) f.expires_at

-- What the code takes of Python's texts: `content.split()`, and of a normal text the
-- digest of its case fold.
pub record Texts : Type 0 where
  pub split : String → List String
  pub digest : String → String

-- `sep.join(words)`
unfoldable pub join : String → List String → String
join sep [] = ""
join sep (w ∷ []) = w
join sep (w ∷ (v ∷ ws)) = w & sep & join sep (v ∷ ws)

-- `normalize`
unfoldable pub normalize : Texts → String → String
unfolding join
normalize t content = join " " (t.split content)

-- `fact_id`
unfoldable pub fact_id : Texts → String → String
unfolding normalize
fact_id t content = t.digest (normalize t content)

-- `InMemoryFactBackend.all`
unfoldable pub all_facts : Subject → Store → List UserFact × Store
all_facts s store =
    let (held, touched) = Scope.rows s facts_table store in (Dict.values held, touched)

-- the loop of `InMemoryFactBackend.remove`
unfoldable pub delete_all : Subject → List String → Store → Store
delete_all s [] store = store
delete_all s (id ∷ ids) store = delete_all s ids (Scope.delete s facts_table id store)

-- `InMemoryFactBackend.remove`
unfoldable pub remove : Subject → List String → Store → ℕ × Store
unfolding delete_all
remove s ids store =
    let (held, touched) = Scope.rows s facts_table store in
    let removed = keep_if (λ id. Dict.has id held) ids in
    (length removed, delete_all s removed touched)

-- the loop of `InMemoryFactBackend.touch`
unfoldable pub touch_all : Subject → List String → ℕ → List UserFact → Store → Store
touch_all s ids now [] store = store
touch_all s ids now (f ∷ fs) store = touch_all s ids now fs (
    if contains f.id ids
    then Scope.put s facts_table f.id (record f { uses = f.uses + 1; last_used_at = now }) store
    else store)

-- `InMemoryFactBackend.touch`
unfoldable pub touch : Subject → List String → ℕ → Store → Store
unfolding all_facts touch_all
touch s ids now store = let (facts, read) = all_facts s store in touch_all s ids now facts read

-- `UserFacts._purge_expired`
unfoldable pub purge_expired : Subject → ℕ → Store → List UserFact × Store
unfolding all_facts remove is_expired
purge_expired s now store =
    let (rows, read) = all_facts s store in
    (rows, (remove s (map (λ f. f.id) (keep_if (is_expired now) rows)) read).1)

-- `UserFacts.list`
unfoldable pub list_facts : Subject → ℕ → Store → List UserFact × Store
unfolding all_facts purge_expired
list_facts s now store =
    let (rows, read) = all_facts s store in
    let (fresh, after) : List UserFact × Store =
      if any (is_expired now) rows then purge_expired s now read else (rows, read) in
    (
      sort_by (λ f g. ltb g.created_at f.created_at) (keep_if (λ f. not (is_expired now f)) fresh),
      after,
    )

-- `_eviction_order`
unfoldable pub is_evicted_first : UserFact → UserFact → Bool
is_evicted_first f g =
    ltb f.uses g.uses
    || f.uses == g.uses
      && (ltb f.last_used_at g.last_used_at
          || f.last_used_at == g.last_used_at && ltb f.created_at g.created_at)

-- `candidates[:excess]`
unfoldable pub take : ℕ → List UserFact → List UserFact
take Prim.Native.Nat.zero fs = []
take (Prim.Native.Nat.suc n) [] = []
take (Prim.Native.Nat.suc n) (f ∷ fs) = f ∷ take n fs

-- the ids that `_evict` removes of the live rows
unfoldable pub evicted : ℕ → String → List UserFact → List String
unfolding take is_evicted_first
evicted max_facts keep rows =
    map (λ f. f.id)
      (take (length rows - max_facts)
        (sort_by is_evicted_first (keep_if (λ f. not (f.id == keep)) rows)))

-- `UserFacts._evict`
unfoldable pub evict : UserMemoryLimits → Subject → String → ℕ → Store → Store
unfolding purge_expired evicted remove
evict limits s keep now store =
    let (held, purged) = purge_expired s now store in
    let rows = keep_if (λ f. not (is_expired now f)) held in
    (remove s (evicted limits.max_facts keep rows) purged).1

-- the row that `_remember` writes over
unfoldable pub find_live : ℕ → String → List UserFact → Option UserFact
unfolding is_expired
find_live now key [] = none
find_live now key (f ∷ fs) =
    if f.id == key && not (is_expired now f) then some f else find_live now key fs

-- the fact that `_remember` writes
unfoldable pub new_fact : UserMemoryLimits → String → String → ℕ → Option UserFact → UserFact
new_fact limits key text now existing = record {
  id = key;
  content = text;
  created_at = elim existing [ none ↦ now | some f ↦ f.created_at ];
  last_used_at = now;
  uses = elim existing [ none ↦ 0 | some f ↦ f.uses ];
  expires_at = elim limits.ttl_s [ none ↦ none | some s ↦ some (now + s * 1000000) ];
}

-- `UserFacts._remember`
unfoldable pub remember_text :
    Texts → UserMemoryLimits → Subject → String → ℕ → Store → UserFact × Store
unfolding purge_expired find_live new_fact evict fact_id
remember_text t limits s text now store =
    let key = fact_id t text in
    let (rows, purged) = purge_expired s now store in
    let fact = new_fact limits key text now (find_live now key rows) in
    (fact, evict limits s key now (Scope.put s facts_table key fact purged))

pub data FactRejected : Type 0 where
  not_text is_empty : FactRejected
  too_long : (size : ℕ) → FactRejected

-- `UserFacts.remember`; a content that is no text is absent
unfoldable pub remember :
    Texts
    → UserMemoryLimits
    → Subject
    → Option String
    → ℕ
    → Store
    → Result FactRejected (UserFact × Store)
unfolding remember_text normalize
remember t limits s none now store = err not_text
remember t limits s (some content) now store =
    let text = normalize t content in
    if text == ""
    then err is_empty
    else if ltb limits.max_fact_bytes (Text.len text)
    then err (too_long (Text.len text))
    else ok (remember_text t limits s text now store)

-- `UserFacts.forget`
unfoldable pub forget : Subject → Option String → Store → Bool × Store
unfolding remove
forget s none store = (false, store)
forget s (some key) store =
    if key == ""
    then (false, store)
    else (let (removed, after) = remove s (key ∷ []) store in (ltb 0 removed, after))
