-- ===== src/Proactive/Dispatch/Room.antt =====
-- The rate limits of proactive.py, read off the queue's messages one by one.
use agents_system.Prelude.{
  subst, ℕ, ◌+◌, ◌-◌, ◌<◌, ◌≤◌, ◌==◌, Bool, true, false, ◌&&◌, not, Option, none, some, String,
  string_eq, nat_eq, List, [], ◌∷◌, ◌≡◌, ◌≢◌, arith, count_if, suc, inl, inr, Bool-cases,
}
use agents_system.Dict
use agents_system.Dict.{Dict}
use agents_system.Proactive.Queue.{
  Status, queued, sending, sent, failed, ambiguous, Message, Queue, same_subject, is_attempted,
  claimed_since, attempts_since,
}
use agents_system.Proactive.Dispatch.{Limit, over_limit}

-- A message with this status may have reached the provider.
abbrev pub IsReached : Status → Type 0
IsReached queued = ⊥
IsReached sending = Unit
IsReached sent = Unit
IsReached failed = ⊥
IsReached ambiguous = Unit

-- No subject stands for every one.
abbrev pub IsTo : Option String → String → Type 0
IsTo none key = Unit
IsTo (some subject) key = key ≡ subject

-- A message whose claim has no instant counts as recent.
abbrev pub IsWithin : ℕ → ℕ → Option ℕ → Type 0
IsWithin window now none = Unit
IsWithin window now (some at) = now ≤ at + window

-- Another message of the runtime, to the subject, may have reached the provider in the window.
abbrev pub IsRival : Message → ℕ → Queue → Option String → ℕ → Message → Type 0
IsRival m now q subject window other =
    (other.runtime_id ≡ m.runtime_id)
    × IsTo subject other.subject_key
    × IsReached other.status
    × (other.id ≢ m.id)
    × IsWithin window now (Dict.get other.id q.times)

-- How many of the messages satisfy the predicate.
pub data Tally (P : Message → Type 0) : List Message → ℕ → Type 0 where
  nobody : Tally P [] 0
  counted :
      (x : Message) (xs : List Message) (n : ℕ) → P x → Tally P xs n → Tally P (x ∷ xs) (suc n)
  passed : (x : Message) (xs : List Message) (n : ℕ) → ¬ P x → Tally P xs n → Tally P (x ∷ xs) n

Tally-count_if :
    (P : Message → Type 0) (p : Message → Bool)
    → ((x : Message) → p x ≡ true → P x)
    → ((x : Message) → p x ≡ false → ¬ P x)
    → (xs : List Message) → Tally P xs (count_if p xs)
Tally-count_if P p holds fails [] = nobody
Tally-count_if P p holds fails (x ∷ xs) =
    let rest = Tally-count_if P p holds fails xs in
    elim (Bool-cases (p x)) [
      | inl e ↦
          subst (Tally P (x ∷ xs)) (ground arith) (counted x xs (count_if p xs) (holds x e) rest)
      | inr e ↦
          subst (Tally P (x ∷ xs)) (ground arith) (passed x xs (count_if p xs) (fails x e) rest)
    ]

reached : (s : Status) → is_attempted s ≡ true → IsReached s
unfolding is_attempted
reached queued h = absurd (ground arith)
reached sending h = tt
reached sent h = tt
reached failed h = absurd (ground arith)
reached ambiguous h = tt

unreached : (s : Status) → is_attempted s ≡ false → ¬ IsReached s
unfolding is_attempted
unreached queued h x = x
unreached sending h x = absurd (ground arith)
unreached sent h x = absurd (ground arith)
unreached failed h x = x
unreached ambiguous h x = absurd (ground arith)

addressed :
    (subject : Option String) (m : Message)
    → same_subject subject m ≡ true
    → IsTo subject m.subject_key
unfolding same_subject
addressed none m h = tt
addressed (some key) m h = ground arith

unaddressed :
    (subject : Option String) (m : Message)
    → same_subject subject m ≡ false
    → ¬ IsTo subject m.subject_key
unfolding same_subject
unaddressed none m h x = absurd (ground arith)
unaddressed (some key) m h x = absurd (ground arith)

in_time :
    (window now : ℕ) (at : Option ℕ)
    → claimed_since (now - window) at ≡ true
    → IsWithin window now at
unfolding claimed_since
in_time window now none h = tt
in_time window now (some at) h = ground arith

too_old :
    (window now : ℕ) (at : Option ℕ)
    → claimed_since (now - window) at ≡ false
    → ¬ IsWithin window now at
unfolding claimed_since
too_old window now none h x = absurd (ground arith)
too_old window now (some at) h x = absurd (ground arith)

-- The test that `attempts_since` sums over.
abbrev is_rival : Message → ℕ → Queue → Option String → ℕ → Message → Bool
is_rival m now q subject window other =
    other.runtime_id == m.runtime_id
    && same_subject subject other
    && is_attempted other.status
    && not (other.id == m.id)
    && claimed_since (now - window) (Dict.get other.id q.times)

is_rival-IsRival :
    (m : Message) (now : ℕ) (q : Queue) (subject : Option String) (window : ℕ) (other : Message)
    → is_rival m now q subject window other ≡ true
    → IsRival m now q subject window other
is_rival-IsRival m now q subject window other h = (
  ground arith,
  addressed subject other (ground arith),
  reached other.status (ground arith),
  λ same. absurd (ground arith),
  in_time window now (Dict.get other.id q.times) (ground arith),
)

unrelated :
    (m : Message) (now : ℕ) (q : Queue) (subject : Option String) (window : ℕ) (other : Message)
    → is_rival m now q subject window other ≡ false
    → ¬ IsRival m now q subject window other
unrelated m now q subject window other h (runtime, to, status, distinct, recent) =
    elim (Bool-cases (same_subject subject other)) [
      | inr e ↦ unaddressed subject other e to
      | inl e ↦ elim (Bool-cases (is_attempted other.status)) [
        | inr f ↦ unreached other.status f status
        | inl f ↦ elim (Bool-cases (claimed_since (now - window) (Dict.get other.id q.times))) [
          | inr g ↦ too_old window now (Dict.get other.id q.times) g recent
          | inl g ↦ absurd (ground arith)
        ]
      ]
    ]

-- A limit leaves room: of the other messages that it counts, fewer than its number may have reached the
-- provider in its window.
abbrev pub HasRoom : Message → ℕ → Queue → Option String → Option Limit → Type 0
HasRoom m now q subject none = Unit
HasRoom m now q subject (some limit) =
    (n : ℕ) × Tally (IsRival m now q subject limit.window) q.messages n × (n < limit.count)

pub over_limit-HasRoom :
    (m : Message) (now : ℕ) (q : Queue) (subject : Option String) (limit : Option Limit)
    → over_limit m now q limit subject ≡ false
    → HasRoom m now q subject limit
unfolding over_limit attempts_since
over_limit-HasRoom m now q subject none h = tt
over_limit-HasRoom m now q subject (some limit) h = (
  count_if (is_rival m now q subject limit.window) q.messages,
  Tally-count_if (IsRival m now q subject limit.window) (is_rival m now q subject limit.window)
      (is_rival-IsRival m now q subject limit.window) (unrelated m now q subject limit.window)
      q.messages,
  ground arith,
)
