-- ===== src/Outbox/Settle.antt =====
-- What a worker reports of its row: `persist_outbound_intent`, `complete_outbox_work`,
-- `record_outbox_failure`, `_locked_live_work` and `record_fallback_delivery` of services/outbox.py.
-- `now` is the first reading of the database's clock in a transaction, `clock` that of its `WHERE`.
use agents_system.Prelude.{
  ℕ, suc, ◌+◌, ◌*◌, ◌/◌, ◌%◌, ◌^◌, min, ◌==◌, ◌&&◌, ◌||◌, Bool, true, false, not, Option, none,
  some, String, string_eq, nat_eq, List, [], ◌∷◌, ◌++◌, if◌then◌else◌, ltb, leb, holds, Result, ok,
  err, ◌>>=◌,
}
use agents_system.Outbox.{
  Work, fallback_reply, Outbox, OutboxError, value_error, lease_lost, is_terminal,
}
use agents_system.Outbox.Claim.{update_row, terminal_row, terminalize_work}

-- the `WHERE` of `_locked_live_work`
unfoldable pub is_live : ℕ → String → ℕ → Work → Bool
unfolding is_terminal
is_live id worker clock work =
    work.id == id
    && holds (λ owner. owner == worker) work.lease_owner
    && holds (λ at. ltb clock at) work.lease_expires_at
    && not (is_terminal work)

unfoldable pub find_live : ℕ → String → ℕ → List Work → Option Work
find_live id worker clock [] = none
find_live id worker clock (w ∷ ws) =
    if is_live id worker clock w then some w else find_live id worker clock ws

-- `_locked_live_work`
unfoldable pub locked_live_work : ℕ → String → ℕ → Outbox → Result OutboxError Work
unfolding find_live
locked_live_work id worker clock box = elim (find_live id worker clock box.rows) [
  | none ↦ err lease_lost
  | some w ↦ ok w
]

-- the column has a value, and another one
unfoldable pub conflicts : String → Option String → Bool
conflicts value column = holds (λ v. not (v == value)) column

unfoldable pub intent_row : String → String → Work → Work
intent_row body send_key work = record work {
  outbound_body = some body;
  outbound_send_key = some send_key;
}

-- `persist_outbound_intent`, on the locked row
unfoldable pub persist_on : String → String → Outbox → Work → Result OutboxError Outbox
unfolding conflicts
persist_on body send_key box current =
    if conflicts send_key current.outbound_send_key
    then err (value_error "outbound intent already has a different send_key")
    else if conflicts body current.outbound_body
    then err (value_error "outbound intent already has a different body")
    else ok (record box { rows = update_row current.id (intent_row body send_key) box.rows })

-- `persist_outbound_intent`
unfoldable pub persist_outbound_intent :
    ℕ → ℕ → String → String → String → Outbox → Result OutboxError Outbox
persist_outbound_intent clock id worker body send_key box =
    if send_key == ""
    then err (value_error "send_key must not be empty")
    else locked_live_work id worker clock box >>= persist_on body send_key box

unfoldable pub complete_row : ℕ → Work → Work
complete_row now work = record work {
  completed_at = some now;
  lease_owner = none;
  lease_expires_at = none;
}

-- `complete_outbox_work`
unfoldable pub complete_outbox_work : ℕ → ℕ → ℕ → String → Outbox → Result OutboxError Outbox
complete_outbox_work now clock id worker box = locked_live_work id worker clock box >>= λ current.
    ok (record box { rows = update_row current.id (complete_row now) box.rows })

-- A float that `jitter` may return, as the ratio that it is; the denominator is `den + 1`.
pub data Jitter : Type 0 where
  negative : Jitter
  ratio : (num den : ℕ) → Jitter

-- `0 <= jitter_value <= 1`
unfoldable pub is_unit : Jitter → Bool
is_unit negative = false
is_unit (ratio num den) = leb num (suc den)

-- The quotient rounded to the nearest number, to the even one of two.
unfoldable pub rounded : ℕ → ℕ → ℕ
rounded a den =
    let q = a / suc den in
    let r = a % suc den in
    if ltb (2 * r) (suc den)
    then q
    else if ltb (suc den) (2 * r)
    then q + 1
    else if q % 2 == 0
    then q
    else q + 1

abbrev pub retry_max_seconds : ℕ
retry_max_seconds = 300

-- `min(_RETRY_BASE_SECONDS * (2**current.attempt_count), _RETRY_MAX_SECONDS)`
unfoldable pub retry_window_seconds : ℕ → ℕ
retry_window_seconds attempt_count = min (1 * 2 ^ attempt_count) retry_max_seconds

-- `timedelta(seconds=retry_window_seconds * jitter_value)`
unfoldable pub retry_delay : ℕ → Jitter → ℕ
unfolding rounded retry_window_seconds
retry_delay attempt_count negative = 0
retry_delay attempt_count (ratio num den) =
    rounded (retry_window_seconds attempt_count * 1000000 * num) den

pub record FailureOutcome : Type 0 where
  pub terminal : Bool
  pub alert_required : Bool
  pub fallback_body : Option String
  pub box : Outbox

-- the reply that a terminal failure commits: the fallback, where the row holds none yet
unfoldable pub fallback_of : Option (String × String) → Option String → Option (String × String)
fallback_of fallback (some body) = none
fallback_of fallback none = fallback

-- the columns that a failure writes
unfoldable pub failure_row : String → Work → Work
failure_row error work = record work {
  last_error = some error;
  lease_owner = none;
  lease_expires_at = none;
}

unfoldable pub reply_row : Option (String × String) → Work → Work
reply_row none work = work
reply_row (some (body, send_key)) work = intent_row body send_key work

unfoldable pub retry_row : ℕ → Work → Work
retry_row at work = record work { available_at = at }

abbrev pub body_of : Option (String × String) → Option String
body_of none = none
body_of (some (body, send_key)) = some body

-- What a failure is reported with.
pub record Failure : Type 0 where
  pub error : String
  pub jitter : Jitter
  pub max_attempts : ℕ
  pub retryable : Bool
  pub failure_class : Option String
  pub fallback : Option (String × String)

-- the terminal branch of `record_outbox_failure`
unfoldable pub fail_terminally : ℕ → Failure → Work → Outbox → FailureOutcome
unfolding terminalize_work terminal_row fallback_of
fail_terminally now failure current box =
    let reply = fallback_of failure.fallback current.outbound_body in
    let change : Work → Work = λ w. reply_row reply (failure_row failure.error w) in
    record {
      terminal = true;
      alert_required = true;
      fallback_body = body_of reply;
      box =
          terminalize_work now failure.error
            (some (record {
              failure_class = failure.failure_class;
              permanent = not failure.retryable;
              fallback_recorded = holds (λ body. not (body == "{}")) (body_of reply);
            }))
            current (record box { rows = update_row current.id change box.rows });
    }

-- the retry of `record_outbox_failure`
unfoldable pub fail_for_now : ℕ → Failure → Work → Outbox → Result OutboxError FailureOutcome
unfolding is_unit
fail_for_now now failure current box =
    if is_unit failure.jitter
    then (let at = now + retry_delay current.attempt_count failure.jitter in
        let change : Work → Work = λ w. retry_row at (failure_row failure.error w) in
        ok (record {
          terminal = false;
          alert_required = false;
          fallback_body = none;
          box = record box { rows = update_row current.id change box.rows };
        }))
    else err (value_error "jitter must return a value between 0 and 1")

unfoldable pub fail_on : ℕ → Failure → Outbox → Work → Result OutboxError FailureOutcome
unfolding fail_terminally fail_for_now
fail_on now failure box current =
    if not failure.retryable || leb failure.max_attempts current.attempt_count
    then ok (fail_terminally now failure current box)
    else fail_for_now now failure current box

-- `record_outbox_failure`
unfoldable pub record_outbox_failure :
    ℕ → ℕ → ℕ → String → Failure → Outbox → Result OutboxError FailureOutcome
record_outbox_failure now clock id worker failure box =
    locked_live_work id worker clock box >>= fail_on now failure box

-- `record_fallback_delivery`
unfoldable pub record_fallback_delivery : ℕ → Work → Bool → Outbox → Outbox
record_fallback_delivery now work delivered box = record box {
  events = box.events ++ (fallback_reply now work.id (work.attempt_count + 1) delivered ∷ []);
}
