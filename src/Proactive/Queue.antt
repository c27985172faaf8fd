-- ===== src/Proactive/Queue.antt =====
-- The message queue: `ProactiveMessage` and `InMemoryProactiveQueue` of proactive.py. The id that
-- `uuid4` draws is an argument of `enqueue`. A method awaits nothing, so it is one step.
pub mod Counts
pub mod Laws
use agents_system.Prelude.{
  ℕ, ◌+◌, ◌==◌, Bool, true, false, ◌&&◌, ◌||◌, not, Option, none, some, String, string_eq, nat_eq,
  List, [], ◌∷◌, ◌++◌, if◌then◌else◌, ltb, leb, map, keep_if, count_if,
}
use mathlib.Core.List.{foldl}
use agents_system.Dict
use agents_system.Dict.{Dict}

pub data Status : Type 0 where
  queued sending sent failed ambiguous : Status

pub record Message : Type 0 where
  pub id : ℕ
  pub runtime_id : String
  pub subject_key : String
  pub text : String
  pub actor : String
  pub status : Status
  pub available_at : Option ℕ
  pub lease_owner : Option String
  pub lease_expires_at : Option ℕ
  pub last_error : Option String

-- `_times` maps an id to the instant of its last claim.
pub record Queue : Type 0 where
  pub messages : List Message
  pub times : Dict ℕ ℕ

abbrev pub empty : Queue
empty = record { messages = []; times = [] }

-- `_replace`
unfoldable pub replace : ℕ → (Message → Message) → List Message → List Message
replace id change = map (λ m. if m.id == id then change m else m)

unfoldable pub enqueue : ℕ → String → String → String → String → ℕ → Queue → Queue
enqueue id runtime_id subject_key text actor available_at q = record q {
  messages =
      q.messages
      ++ record {
        id = id;
        runtime_id = runtime_id;
        subject_key = subject_key;
        text = text;
        actor = actor;
        status = queued;
        available_at = some available_at;
        lease_owner = none;
        lease_expires_at = none;
        last_error = none;
      }
        ∷ [];
}

unfoldable pub is_sending : Status → Bool
is_sending sending = true
is_sending _ = false

unfoldable pub is_queued : Status → Bool
is_queued queued = true
is_queued _ = false

-- `ATTEMPTED_STATUSES`
unfoldable pub is_attempted : Status → Bool
is_attempted sending = true
is_attempted sent = true
is_attempted ambiguous = true
is_attempted _ = false

unfoldable pub lease_lapsed : ℕ → Option ℕ → Bool
lease_lapsed now none = false
lease_lapsed now (some expires) = leb expires now

unfoldable pub is_expired : ℕ → Message → Bool
is_expired now m = is_sending m.status && lease_lapsed now m.lease_expires_at

unfoldable pub expire : Message → Message
expire m = record m { status = ambiguous; last_error = some "lease_expired" }

-- the loop of `expire_leases`
unfoldable pub expire_each : List Message → List Message → List Message
expire_each [] messages = messages
expire_each (m ∷ expired) messages = expire_each expired (replace m.id expire messages)

unfoldable pub expire_leases : ℕ → Queue → List Message × Queue
expire_leases now q =
    let expired = keep_if (is_expired now) q.messages in
    (map expire expired, record q { messages = expire_each expired q.messages })

-- `m.available_at or now`
unfoldable pub due_at : ℕ → Message → ℕ
due_at now m = elim m.available_at [ some t ↦ t | none ↦ now ]

unfoldable pub is_due : ℕ → Message → Bool
is_due now m = is_queued m.status && leb (due_at now m) now

-- `min` by a key: the first of the least
unfoldable pub earliest : ℕ → Message → List Message → Message
earliest now best [] = best
earliest now best (m ∷ ms) =
    earliest now (if ltb (due_at now m) (due_at now best) then m else best) ms

-- `next(m for m in messages if m.id == id)`
unfoldable pub find : ℕ → List Message → Option Message
find id [] = none
find id (m ∷ ms) = if m.id == id then some m else find id ms

unfoldable pub lease_to : String → ℕ → Message → Message
lease_to worker_id expires m = record m {
  status = sending;
  lease_owner = some worker_id;
  lease_expires_at = some expires;
}

-- `claim` of the chosen message
unfoldable pub take : String → ℕ → ℕ → Message → Queue → Option Message × Queue
take worker_id now lease chosen q =
    let messages = replace chosen.id (lease_to worker_id (now + lease)) q.messages in
    (
      find chosen.id messages,
      record { messages = messages; times = Dict.put chosen.id now q.times },
    )

unfoldable pub claim_due : String → ℕ → ℕ → List Message → Queue → Option Message × Queue
claim_due worker_id now lease [] q = (none, q)
claim_due worker_id now lease (m ∷ ms) q = take worker_id now lease (earliest now m ms) q

unfoldable pub claim : String → ℕ → ℕ → Queue → Option Message × Queue
claim worker_id now lease q =
    let (_, q') = expire_leases now q in
    claim_due worker_id now lease (keep_if (is_due now) q'.messages) q'

unfoldable pub same_subject : Option String → Message → Bool
same_subject none m = true
same_subject (some key) m = m.subject_key == key

-- `self._times.get(m.id, since) >= since`
unfoldable pub claimed_since : ℕ → Option ℕ → Bool
claimed_since since none = true
claimed_since since (some t) = leb since t

-- `since` is what the caller computes, and stops at the epoch.
unfoldable pub attempts_since : String → Option String → ℕ → ℕ → Queue → ℕ
attempts_since runtime_id subject_key since exclude q =
    count_if
      (λ m.
        m.runtime_id == runtime_id
        && same_subject subject_key m
        && is_attempted m.status
        && not (m.id == exclude)
        && claimed_since since (Dict.get m.id q.times))
      q.messages

unfoldable pub close : Status → Option String → Message → Message
close status error m = record m {
  status = status;
  last_error = error;
  lease_owner = none;
  lease_expires_at = none;
}

-- The reference queue does not look at the worker.
unfoldable pub finish : ℕ → Status → Option String → Queue → Queue
finish id status error q = record q { messages = replace id (close status error) q.messages }

unfoldable pub requeue : ℕ → Message → Message
requeue until m = record m {
  status = queued;
  available_at = some until;
  lease_owner = none;
  lease_expires_at = none;
}

unfoldable pub defer : ℕ → ℕ → Queue → Queue
defer id until q = record {
  messages = replace id (requeue until) q.messages;
  times = Dict.pop id q.times;
}
