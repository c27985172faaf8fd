-- ===== src/Schedules/Runner.antt =====
-- `ScheduledTurnRunner` of schedules.py. The directory and the runtime are code of others: what they
-- answer is an argument, and so is the text of the turn's last answer. A record of the result that
-- raises is not modelled: the in-memory store's does not.
pub mod Delivery
pub mod Guards
use agents_system.Prelude.{
  ℕ, ◌*◌, ◌-◌, ◌==◌, Bool, true, false, not, Option, none, some, String, string_eq, List, [], ◌∷◌,
  Result, ok, err, ◌>>=◌, if◌then◌else◌, ltb, any, contains,
}
use Prim.Native.String as Text
use agents_system.Dict
use agents_system.Dict.{Dict}
use agents_system.Permissions.Base.{Class, covers, PermissionError}
use agents_system.Permissions.Registry.{Registry, resolve}
use agents_system.Proactive.Quiet.{quiet_until}
use agents_system.Proactive.Queue.{Queue}
use agents_system.Proactive.Dispatch.{
  Recipient, ceiling_for, permitted, Refusal, not_granted, not_authorized, unknown_permission,
  or_refuse, submit,
}
use agents_system.Schedules.Recurrence.{second}
use agents_system.Schedules.Store
use agents_system.Schedules.Store.{Schedule, Store, claimed, claim_due, advance, record_result}

-- The fields of `ScheduleLimits` that the runner reads.
pub record Limits : Type 0 where
  pub missed_grace_s : ℕ
  pub quiet_hours : Option (ℕ × ℕ)
  pub quiet_tz : ℕ

-- The runner, with the sender that it is given: the ceilings of both are of classes.
pub record Runner : Type 0 where
  pub registry : Registry
  pub ceiling : Dict String (List Class)
  pub limits : Limits
  pub runtimes : List String
  pub sender_ceiling : Dict String (List Class)

-- What the runner's directory answers: the key of the subject it returns, none, or it raises.
pub data Authorized : Type 0 where
  raises : Authorized
  answers : Option String → Authorized

pub data Turn : Type 0 where
  raises : Turn
  ended : (budget_refused timed_out : Bool) (final_text : String) → Turn

-- What the sender's directory answers.
pub data Checked : Type 0 where
  raises : Checked
  answers : Option Recipient → Checked

-- The answers that one run gets, the id that the queue gives its message, the actor's label and the
-- sender's clock.
pub record Answers : Type 0 where
  pub authorized : Authorized
  pub turn : Turn
  pub checked : Checked
  pub message_id : ℕ
  pub actor : String
  pub clock : ℕ

pub data Status : Type 0 where
  idle delivered skipped failed : Status

-- The id of the schedule is not kept in the outcome: it is the claimed one's.
pub record Outcome : Type 0 where
  pub status : Status
  pub reason : Option String

abbrev pub out : Status → String → Outcome
out status reason = record { status = status; reason = some reason }

-- `_granted`
unfoldable pub granted : Runner → String → String → Result PermissionError Bool
granted runner runtime_id permission = do
  needed ← resolve permission runner.registry
  ok (any (λ g. covers g needed) (ceiling_for runner.ceiling runtime_id))

-- the handlers around `submit`
unfoldable pub after_submit : Result Refusal Queue → Queue → Outcome × Queue
after_submit (ok q') q = (record { status = delivered; reason = none }, q')
after_submit (err not_authorized) q = (out failed "recipient_not_authorized", q)
after_submit (err not_granted) q = (out failed "delivery_not_permitted", q)
after_submit (err (unknown_permission _)) q = (out failed "delivery_failed", q)

-- the sender's directory raises, which it is asked only after the permission check
unfoldable pub submit_raises : Result Refusal Bool → Queue → Outcome × Queue
submit_raises (ok false) q = (out failed "delivery_not_permitted", q)
submit_raises _ q = (out failed "delivery_failed", q)

unfoldable pub deliver : Runner → Answers → Schedule → String → String → Queue → Outcome × Queue
unfolding after_submit submit_raises
deliver runner a schedule key text q = elim a.checked [
  | answers directory ↦
      after_submit
        (submit runner.registry runner.sender_ceiling directory a.message_id schedule.runtime_id key
          text a.actor ("send:proactive" ∷ []) a.clock q)
        q
  | raises ↦
      submit_raises
        (or_refuse (
          permitted runner.registry runner.sender_ceiling schedule.runtime_id
            ("send:proactive" ∷ [])))
        q
]

unfoldable pub run_turn : Runner → Answers → Schedule → String → Queue → Outcome × Queue
unfolding deliver
run_turn runner a schedule key q = elim a.turn [
  | raises ↦ (out failed "turn_failed", q)
  | ended budget_refused timed_out text ↦
      if budget_refused
      then (out skipped "budget_refused", q)
      else if timed_out
      then (out failed "turn_timed_out", q)
      else if text == ""
      then (out skipped "empty_reply", q)
      else deliver runner a schedule key text q
]

unfoldable pub authorize : Runner → Answers → Schedule → Queue → Outcome × Queue
unfolding run_turn
authorize runner a schedule q = elim a.authorized [
  | raises ↦ (out failed "recipient_lookup_failed", q)
  | answers none ↦ (out failed "recipient_not_authorized", q)
  | answers (some key) ↦ run_turn runner a schedule key q
]

unfoldable pub in_window : Runner → Answers → Schedule → ℕ → ℕ → Queue → Outcome × Queue
unfolding authorize
in_window runner a schedule due now q =
    if ltb (runner.limits.missed_grace_s * second) (now - due)
    then (out skipped "missed_window", q)
    else elim (quiet_until runner.limits.quiet_hours runner.limits.quiet_tz now) [
      | some _ ↦ (out skipped "quiet_hours", q)
      | none ↦ authorize runner a schedule q
    ]

unfoldable pub if_granted :
    Runner → Answers → Schedule → ℕ → ℕ → Queue → Result PermissionError (Outcome × Queue)
unfolding in_window
if_granted runner a schedule due now q = do
  allowed ← granted runner schedule.runtime_id "write:schedule"
  if allowed
      then ok (in_window runner a schedule due now q)
      else ok (out skipped "not_permitted", q)

-- `_execute`; a permission name that is not registered raises.
unfoldable pub execute :
    Runner → Answers → Schedule → ℕ → ℕ → Queue → Result PermissionError (Outcome × Queue)
unfolding if_granted
execute runner a schedule due now q =
    if contains schedule.runtime_id runner.runtimes
    then if_granted runner a schedule due now q
    else ok (out failed "runtime_unavailable", q)

unfoldable pub status_text : Status → String
status_text idle = "idle"
status_text delivered = "delivered"
status_text skipped = "skipped"
status_text failed = "failed"

-- `outcome.status`, with the reason where there is one
unfoldable pub label_of : Outcome → String
unfolding status_text
label_of o = elim o.reason [
  | none ↦ status_text o.status
  | some reason ↦ Text.◌++◌ (status_text o.status) (Text.◌++◌ ":" reason)
]

-- What a run leaves: it raised, or its outcome, with the schedules and the queue.
pub record Run : Type 0 where
  pub outcome : Option Outcome
  pub store : Store
  pub queue : Queue

-- the rest of `run_once` after `_execute`
unfoldable pub close : Schedule → ℕ → Store → Queue → Result PermissionError (Outcome × Queue) → Run
unfolding label_of
close schedule now store q (err _) = record { outcome = none; store = store; queue = q }
close schedule now store q (ok (o, q')) = record {
  outcome = some o;
  store =
      record_result (schedule.runtime_id, schedule.subject_key) schedule.id (label_of o) now store;
  queue = q';
}

unfoldable pub run_once : Runner → Answers → ℕ → Store → Queue → Run
unfolding close
run_once runner a now store q = elim (claim_due advance now store) [
  | Store.idle ↦ record {
    outcome = some (record { status = Status.idle; reason = none });
    store = store;
    queue = q;
  }
  | Store.raised ↦ record { outcome = none; store = store; queue = q }
  | claimed schedule due moved ↦ close schedule now moved q (execute runner a schedule due now q)
]
