-- ===== src/Outbox.antt =====
-- The webhook outbox: the rows of models/outbox.py and `accept_inbound_message`,
-- `pending_outbox_statement` and `count_outbox_backlog` of services/outbox.py. An instant is a number
-- of microseconds of the database's clock, an id the number a UUID stands for, a JSON value its
-- normal text.
pub mod Claim
pub mod Settle
pub mod Rows
pub mod Steps
pub mod Changes
pub mod Effects
pub mod Keyed
pub mod Siblings
pub mod InOrder
pub mod Order
pub mod Granted
pub mod Fenced
pub mod Fencing
pub mod Left
pub mod Draining
pub mod Crashes
pub mod Unique
pub mod Fates
pub mod Lifecycle
pub mod Replies
pub mod Ended
pub mod Backoff
pub mod Accept
use agents_system.Prelude.{
  ℕ, zero, suc, ◌==◌, ◌&&◌, ◌||◌, Bool, true, false, not, Option, none, some, String, string_eq,
  nat_eq, List, [], ◌∷◌, ◌++◌, ◌&◌, if◌then◌else◌, ltb, leb, keep_if, count_if, any, is_none, holds,
  Result, ok, err,
}

pub record Work : Type 0 where
  pub id : ℕ
  pub inbound_message_id : ℕ
  pub conversation_key : String
  pub enqueued_at : ℕ
  pub available_at : ℕ
  pub lease_expires_at : Option ℕ
  pub lease_owner : Option String
  pub attempt_count : ℕ
  pub last_error : Option String
  pub failed_at : Option ℕ
  pub outbound_body : Option String
  pub outbound_send_key : Option String
  pub completed_at : Option ℕ

pub record Inbound : Type 0 where
  pub id : ℕ
  pub channel : String
  pub meta_message_id : String
  pub payload : String

pub record Details : Type 0 where
  pub failure_class : Option String
  pub permanent : Bool
  pub fallback_recorded : Bool

-- The audit events of the outbox.
pub data Event : Type 0 where
  terminal_failure :
      (occurred_at work_id sequence : ℕ) (error : String) (attempt_count : ℕ)
      (details : Option Details)
      → Event
  fallback_reply : (occurred_at work_id sequence : ℕ) (delivered : Bool) → Event

-- The tables that the outbox's transactions write.
pub record Outbox : Type 0 where
  pub inbox : List Inbound
  pub rows : List Work
  pub events : List Event

-- Why a transaction was rolled back.
pub data OutboxError : Type 0 where
  value_error : String → OutboxError
  lease_lost : OutboxError

abbrev pub legacy_channel : String
legacy_channel = "whatsapp"

-- `channel_scoped_key`
unfoldable pub channel_scoped_key : String → String → String
channel_scoped_key channel key = if channel == legacy_channel then key else channel & ":" & key

-- `OutboxWork(...)`, with the defaults of its columns
unfoldable pub new_work : ℕ → ℕ → String → ℕ → Work
new_work id inbound_message_id conversation_key now = record {
  id = id;
  inbound_message_id = inbound_message_id;
  conversation_key = conversation_key;
  enqueued_at = now;
  available_at = now;
  lease_expires_at = none;
  lease_owner = none;
  attempt_count = 0;
  last_error = none;
  failed_at = none;
  outbound_body = none;
  outbound_send_key = none;
  completed_at = none;
}

pub record Acceptance : Type 0 where
  pub inbound_message_id : ℕ
  pub duplicate : Bool
  pub box : Outbox

-- `select(InboundMessage).where(InboundMessage.meta_message_id == meta_message_id)`
unfoldable pub find_inbound : String → List Inbound → Option Inbound
find_inbound meta_message_id [] = none
find_inbound meta_message_id (m ∷ ms) =
    if m.meta_message_id == meta_message_id then some m else find_inbound meta_message_id ms

-- the commit, or the rollback on the unique conflict of the message's identity
unfoldable pub insert_inbound : Inbound → Work → Outbox → Acceptance
insert_inbound inbound work box = elim (find_inbound inbound.meta_message_id box.inbox) [
  | some existing ↦ record { inbound_message_id = existing.id; duplicate = true; box = box }
  | none ↦ record {
    inbound_message_id = inbound.id;
    duplicate = false;
    box = record box { inbox = box.inbox ++ (inbound ∷ []); rows = box.rows ++ (work ∷ []) };
  }
]

-- `accept_inbound_message`; the two ids are what `uuid4` drew, `now` is the transaction's start
unfoldable pub accept_inbound_message :
    (inbound_id work_id : ℕ) (now : ℕ) (meta_message_id payload conversation_key channel : String)
    → Outbox
    → Result OutboxError Acceptance
accept_inbound_message inbound_id work_id now meta_message_id payload conversation_key channel box =
    if conversation_key == ""
    then err (value_error "conversation_key must not be empty")
    else (let inbound : Inbound = record {
      id = inbound_id;
      channel = channel;
      meta_message_id = channel_scoped_key channel meta_message_id;
      payload = payload;
    } in
        let work = new_work work_id inbound_id (channel_scoped_key channel conversation_key) now in
        ok (insert_inbound inbound work box))

-- `completed_at IS NOT NULL OR failed_at IS NOT NULL`
unfoldable pub is_terminal : Work → Bool
is_terminal work = not (is_none work.completed_at) || not (is_none work.failed_at)

-- `(a.enqueued_at, a.id) < (b.enqueued_at, b.id)`
unfoldable pub is_older : Work → Work → Bool
is_older a b = ltb a.enqueued_at b.enqueued_at || a.enqueued_at == b.enqueued_at && ltb a.id b.id

-- what `no_older_sibling` looks for
unfoldable pub is_older_sibling : Work → Work → Bool
unfolding is_terminal is_older
is_older_sibling work sibling =
    sibling.conversation_key == work.conversation_key
    && not (is_terminal sibling)
    && is_older sibling work

-- The `WHERE` of `pending_outbox_statement`; `locked` says which rows another transaction holds.
unfoldable pub is_pending : ℕ → (ℕ → Bool) → List Work → Work → Bool
unfolding is_terminal is_older_sibling
is_pending now locked rows work =
    not (is_terminal work)
    && leb work.available_at now
    && (is_none work.lease_expires_at || holds (λ at. ltb at now) work.lease_expires_at)
    && not (any (is_older_sibling work) rows)
    && not (locked work.id)

-- `ORDER BY available_at, id`
unfoldable pub insert_ordered : Work → List Work → List Work
insert_ordered work [] = work ∷ []
insert_ordered work (w ∷ ws) =
    let rest = insert_ordered work ws in
    if ltb w.available_at work.available_at
      || w.available_at == work.available_at && ltb w.id work.id
    then w ∷ rest
    else work ∷ w ∷ ws

unfoldable pub ordered : List Work → List Work
unfolding insert_ordered
ordered [] = []
ordered (w ∷ ws) = insert_ordered w (ordered ws)

-- `LIMIT`
unfoldable pub take : ℕ → List Work → List Work
take zero ws = []
take (suc n) [] = []
take (suc n) (w ∷ ws) = w ∷ take n ws

-- `pending_outbox_statement`
unfoldable pub pending_outbox_work : ℕ → ℕ → (ℕ → Bool) → List Work → List Work
unfolding is_pending ordered take
pending_outbox_work now limit locked rows =
    take limit (ordered (keep_if (is_pending now locked rows) rows))

pub record OutboxBacklogCounts : Type 0 where
  pub pending : ℕ
  pub leased : ℕ
  pub leased_expired : ℕ

-- `count_outbox_backlog`
unfoldable pub count_outbox_backlog : ℕ → Outbox → OutboxBacklogCounts
unfolding is_terminal
count_outbox_backlog now box = record {
  pending = count_if (λ w. not (is_terminal w) && is_none w.lease_expires_at) box.rows;
  leased = count_if (λ w. not (is_terminal w) && not (is_none w.lease_expires_at)) box.rows;
  leased_expired =
      count_if
        (λ w.
          not (is_terminal w)
          && not (is_none w.lease_expires_at)
          && holds (λ at. ltb at now) w.lease_expires_at)
        box.rows;
}
