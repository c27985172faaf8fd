-- ===== src/Worker/Failures.antt =====
-- How the worker of services/webhook_worker.py ends a row: `_complete_or_retry`, `_record_failure`,
-- `_send_fallback` and `_notify_terminal_failure`.
use agents_system.Prelude.{
  ◌&&◌, Bool, true, false, not, Option, none, some, String, List, [], ◌∷◌, ◌++◌, ◌&◌, if◌then◌else◌,
  is_none, ok, err,
}
use agents_system.Outbox.{Work, Outbox, OutboxError, value_error, lease_lost}
use agents_system.Outbox.Settle.{
  Failure, FailureOutcome, record_outbox_failure, complete_outbox_work, record_fallback_delivery,
}
use agents_system.Worker.{
  Exn, Policy, Binding, Worker, Answers, Act, sent, counted, notified, Done, is_retryable, error_of,
}

-- `_notify_terminal_failure`: a notifier that raises changes nothing
unfoldable pub notify_terminal_failure : Worker → String → List Act
notify_terminal_failure d error = if d.has_notifier then notified error ∷ [] else []

-- the send of a fallback, and whether it ended well; a body without the two fields cannot be sent
unfoldable pub try_fallback : Worker → Binding → String → List Act × Bool
try_fallback d binding body = elim (d.decode body) [
  | none ↦ ([], false)
  | some (to, text) ↦
      let delivered = is_none (binding.send_text to text) in
      (sent to text delivered ∷ [], delivered)
]

-- `_send_fallback`
unfoldable pub send_fallback : Worker → Answers → Work → Binding → String → Outbox → Done
unfolding try_fallback
send_fallback d a work binding body box = elim a.fallback_error [
  | none ↦ (
    (try_fallback d binding body).0,
    record_fallback_delivery a.fallback_now work (try_fallback d binding body).1 box,
  )
  | some e ↦ ((try_fallback d binding body).0, box)
]

-- the fallback of a failure, for the address and the key in `fallback_to`
unfoldable pub fallback_reply :
    Worker → Policy → Option (String × String) → Option (String × String)
fallback_reply d policy none = none
fallback_reply d policy (some (address, key)) = some (d.encode address policy.fallback_reply, key)

abbrev policy_of : Worker → Option Binding → Policy
policy_of d none = d.default_policy
policy_of d (some binding) = binding.policy

-- what `record_outbox_failure` is called with
unfoldable pub failure_of :
    Worker → Answers → Exn → Option Binding → Option (String × String) → Failure
unfolding is_retryable error_of fallback_reply
failure_of d a exn binding fallback_to =
    let policy = policy_of d binding in
    record {
      error = error_of exn;
      jitter = a.jitter;
      max_attempts = policy.max_attempts;
      retryable = is_retryable exn policy;
      failure_class = some exn.class_name;
      fallback = fallback_reply d policy fallback_to;
    }

-- the count and the notice of a terminal failure
unfoldable pub signals : Worker → Exn → String → Option Binding → FailureOutcome → List Act
unfolding notify_terminal_failure is_retryable error_of
signals d exn channel binding o =
    let permanent = not (is_retryable exn (policy_of d binding)) in
    let counts : List Act = if o.terminal then counted channel exn permanent ∷ [] else [] in
    let notes : List Act =
      if o.terminal && o.alert_required then notify_terminal_failure d (error_of exn) else [] in
    counts ++ notes

-- what follows the transaction: the signals, and the fallback
unfoldable pub after_failure :
    Worker → Answers → Work → Exn → String → Option Binding → FailureOutcome → Done
unfolding signals send_fallback
after_failure d a work exn channel none o = (signals d exn channel none o, o.box)
after_failure d a work exn channel (some b) o = elim o.fallback_body [
  | none ↦ (signals d exn channel (some b) o, o.box)
  | some body ↦
      let (acts, box) = send_fallback d a work b body o.box in
      (signals d exn channel (some b) o ++ acts, box)
]

-- `_record_failure`
unfoldable pub record_failure :
    Worker
    → Answers
    → Work
    → Exn
    → String
    → Option Binding
    → Option (String × String)
    → Outbox
    → Done
unfolding failure_of after_failure
record_failure d a work exn channel binding fallback_to box = elim a.failure_error [
  | some e ↦ ([], box)
  | none ↦
      elim (record_outbox_failure a.failure_now a.failure_at work.id d.worker_id
        (failure_of d a exn binding fallback_to) box) [
          | err e ↦ ([], box)
          | ok o ↦ after_failure d a work exn channel binding o
        ]
]

-- `_RetryableCondition(message)`
unfoldable pub condition : String → Exn
condition message = record {
  class_name = "_RetryableCondition";
  message = message;
  is_condition = true;
}

-- the message of the exception that a transaction of the outbox raised
unfoldable pub message_of : OutboxError → String
message_of (value_error m) = m
message_of lease_lost = "outbox lease is no longer owned or live"

-- `_complete_or_retry`
unfoldable pub complete_or_retry : Worker → Answers → Work → String → Outbox → Done
unfolding record_failure condition message_of
complete_or_retry d a work reason box = elim a.end_error [
  | some e ↦ record_failure d a work (condition (reason & ": " & e.message)) "unknown" none none box
  | none ↦ elim (complete_outbox_work a.end_now a.end_at work.id d.worker_id box) [
    | ok after ↦ ([], after)
    | err lease_lost ↦ ([], box)
    | err (value_error m) ↦
        record_failure d a work (condition (reason & ": " & m)) "unknown" none none box
  ]
]
