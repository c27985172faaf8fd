-- ===== src/Outbox/Steps.antt =====
-- The transactions of services/outbox.py, in any order, as steps of the tables.
use agents_system.Prelude.{ℕ, Bool, false, String, List, [], ◌≡◌, ◌≢◌, ok}
use agents_system.Outbox.{Work, Outbox, Acceptance, accept_inbound_message, is_older_sibling}
use agents_system.Outbox.Claim.{ClaimOutcome, claim_available_outbox_work}
use agents_system.Outbox.Settle.{
  Failure, FailureOutcome, persist_outbound_intent, complete_outbox_work, record_outbox_failure,
  record_fallback_delivery,
}
use agents_system.Outbox.Rows.{IsIn}

-- No row of the table is an older sibling.
abbrev pub IsOldest : List Work → Work → Type 0
IsOldest rows work = (s : Work) → IsIn s rows → is_older_sibling work s ≡ false

-- One committed transaction of some worker or route; `max` is the limit of attempts of claims.
-- The row of an accepted message has an id of its own. It may be older than rows of its conversation
-- that are there already: it is dated by the start of its transaction.
pub data Step (max : ℕ) : Outbox → Outbox → Type 0 where
  accepts :
      {box : Outbox} (inbound_id work_id now : ℕ) (meta payload key channel : String)
      (a : Acceptance)
      → ((s : Work) → IsIn s box.rows → s.id ≢ work_id)
      → accept_inbound_message inbound_id work_id now meta payload key channel box ≡ ok a
      → Step max box a.box
  claims :
      {box : Outbox} (now : ℕ) (locked : ℕ → Bool) (worker : String) (limit lease : ℕ)
      (o : ClaimOutcome)
      → claim_available_outbox_work now locked worker limit lease max box ≡ ok o
      → Step max box o.box
  persists :
      {box after : Outbox} (clock id : ℕ) (worker body send_key : String)
      → persist_outbound_intent clock id worker body send_key box ≡ ok after
      → Step max box after
  completes :
      {box after : Outbox} (now clock id : ℕ) (worker : String)
      → complete_outbox_work now clock id worker box ≡ ok after
      → Step max box after
  fails :
      {box : Outbox} (now clock id : ℕ) (worker : String) (failure : Failure) (o : FailureOutcome)
      → record_outbox_failure now clock id worker failure box ≡ ok o
      → Step max box o.box
  notes :
      (box : Outbox) (now : ℕ) (work : Work) (delivered : Bool)
      → Step max box (record_fallback_delivery now work delivered box)

-- What the transactions reach from empty tables.
pub data Reach (max : ℕ) : Outbox → Type 0 where
  start : Reach max (record { inbox = []; rows = []; events = [] })
  next : {box after : Outbox} → Reach max box → Step max box after → Reach max after
