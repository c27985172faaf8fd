-- ===== src/Outbox/Claim.antt =====
-- `claim_available_outbox_work` and `_terminalize_work` of services/outbox.py.
use agents_system.Prelude.{
  ℕ, ◌+◌, ◌==◌, ◌&&◌, not, any, is_none, Bool, Option, none, some, String, string_eq, nat_eq, List,
  [], ◌∷◌, ◌++◌, map, if◌then◌else◌, leb, Result, ok, err,
}
use agents_system.Outbox.{Work, Details, terminal_failure, Outbox, is_terminal, pending_outbox_work}

-- An update of the row with this id.
unfoldable pub update_row : ℕ → (Work → Work) → List Work → List Work
update_row id change rows = map (λ row. if row.id == id then change row else row) rows

-- the columns that a terminal failure writes
unfoldable pub terminal_row : ℕ → String → Work → Work
terminal_row occurred_at error work = record work {
  last_error = some error;
  lease_owner = none;
  lease_expires_at = none;
  failed_at = some occurred_at;
}

-- `_terminalize_work`
unfoldable pub terminalize_work : ℕ → String → Option Details → Work → Outbox → Outbox
terminalize_work occurred_at error details work box = record box {
  rows = update_row work.id (terminal_row occurred_at error) box.rows;
  events =
      box.events
      ++ (terminal_failure occurred_at work.id work.attempt_count error work.attempt_count details
          ∷ []);
}

-- the columns that a claim writes
unfoldable pub lease_row : String → ℕ → Work → Work
lease_row worker until work = record work {
  lease_owner = some worker;
  lease_expires_at = some until;
  attempt_count = work.attempt_count + 1;
}

-- `work.last_error or "lease expired after maximum delivery attempts"`
unfoldable pub exhausted_error : Option String → String
exhausted_error none = "lease expired after maximum delivery attempts"
exhausted_error (some e) = if e == "" then "lease expired after maximum delivery attempts" else e

-- What a claim is asked for: the database's clock, the worker, the end of the lease, the most attempts.
pub record Request : Type 0 where
  pub now : ℕ
  pub worker_id : String
  pub until : ℕ
  pub max_attempts : ℕ

-- the row that the loop's body leaves
unfoldable pub claim_row : Request → Work → Work → Work
claim_row req work row =
    if leb req.max_attempts work.attempt_count
    then terminal_row req.now (exhausted_error work.last_error) row
    else lease_row req.worker_id req.until row

-- the body of the loop of a claim
unfoldable pub claim_one : Request → Work → Outbox → Outbox
claim_one req work box =
    if leb req.max_attempts work.attempt_count
    then terminalize_work req.now (exhausted_error work.last_error) none work box
    else record box { rows = update_row work.id (lease_row req.worker_id req.until) box.rows }

pub record ClaimOutcome : Type 0 where
  pub claimed : List Work
  pub terminalized : List Work
  pub box : Outbox

-- the loop of a claim
unfoldable pub claim_rows : Request → List Work → Outbox → ClaimOutcome
unfolding claim_row claim_one
claim_rows req [] box = record { claimed = []; terminalized = []; box = box }
claim_rows req (work ∷ works) box =
    let rest = claim_rows req works (claim_one req work box) in
    if leb req.max_attempts work.attempt_count
    then record rest { terminalized = claim_row req work work ∷ rest.terminalized }
    else record rest { claimed = claim_row req work work ∷ rest.claimed }

-- The row is in the index of live leases.
unfoldable pub is_leased : Work → Bool
unfolding is_terminal
is_leased work = not (is_terminal work) && not (is_none work.lease_expires_at)

-- The rows break the unique index `ux_outbox_work_conversation_live_lease`.
unfoldable pub has_two_leases : List Work → Bool
unfolding is_leased
has_two_leases rows =
    any
      (λ a.
        is_leased a
        && any (λ b. is_leased b && b.conversation_key == a.conversation_key && not (b.id == a.id))
            rows)
      rows

-- Why a claim is not committed.
pub data ClaimError : Type 0 where
  bad_argument : String → ClaimError
  integrity_error : ClaimError

-- `claim_available_outbox_work`
unfoldable pub claim_available_outbox_work :
    (now : ℕ) (locked : ℕ → Bool) (worker_id : String) (limit lease_duration max_attempts : ℕ)
    → Outbox
    → Result ClaimError ClaimOutcome
unfolding claim_rows has_two_leases
claim_available_outbox_work now locked worker_id limit lease_duration max_attempts box =
    if worker_id == ""
    then err (bad_argument "worker_id must not be empty")
    else if leb limit 0
    then err (bad_argument "limit must be positive")
    else if leb lease_duration 0
    then err (bad_argument "lease_duration must be positive")
    else (let req : Request = record {
      now = now;
      worker_id = worker_id;
      until = now + lease_duration;
      max_attempts = max_attempts;
    } in
        let o = claim_rows req (pending_outbox_work now limit locked box.rows) box in
        if has_two_leases o.box.rows then err integrity_error else ok o)
