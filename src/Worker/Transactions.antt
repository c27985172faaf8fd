-- ===== src/Worker/Transactions.antt =====
-- The transactions that one processing of a row of services/webhook_worker.py commits.
use agents_system.Prelude.{
  ℕ, Option, none, some, String, ◌&◌, false, subst, inl, inr, arith, Option-cases, Result-cases,
}
use agents_system.Outbox.{Work, Outbox, value_error, lease_lost}
use agents_system.Outbox.Settle.{
  FailureOutcome, record_outbox_failure, complete_outbox_work, persist_outbound_intent,
}
use agents_system.Outbox.Steps.{Step, persists, completes, fails, notes}
use agents_system.Outbox.Replies.{Later, at_once, onward, Later-trans}
use agents_system.Worker.{Exn, Binding, Worker, Answers, Done}
use agents_system.Worker.Failures.{
  condition, failure_of, try_fallback, send_fallback, after_failure, record_failure,
  complete_or_retry,
}
use agents_system.Worker.Process.{Case, fallback_to, deliver, commit_reply, process_claimed_work}
use agents_system.Worker.Courses.{
  Course, fails as fails_with, closes, resends, turn_fails, is_silent, answers,
}
use agents_system.Worker.Courses.Taken.{process-Course}

-- After a failure the tables are those of its transaction, or have the audit of the fallback too.
pub after_failure-box :
    (d : Worker) (a : Answers) (work : Work) (exn : Exn) (channel : String) (b : Option Binding)
    (max : ℕ) (o : FailureOutcome)
    → Later max o.box (after_failure d a work exn channel b o).1
unfolding after_failure send_fallback
after_failure-box d a work exn channel none max o = at_once o.box
after_failure-box d a work exn channel (some b) max o = elim (Option-cases o.fallback_body) [
  | inl e ↦ subst (Later max o.box) (ground arith) (at_once o.box)
  | inr (body, e) ↦ elim (Option-cases a.fallback_error) [
    | inr (exn', f) ↦ subst (Later max o.box) (ground arith) (at_once o.box)
    | inl f ↦ subst (Later max o.box) (ground arith) (
        onward {between = o.box} (at_once o.box)
          (notes o.box a.fallback_now work (try_fallback d b body).1))
  ]
]

record_failure-Later :
    (d : Worker) (a : Answers) (work : Work) (exn : Exn) (channel : String) (b : Option Binding)
    (to : Option (String × String)) (box : Outbox) (max : ℕ)
    → Later max box (record_failure d a work exn channel b to box).1
unfolding record_failure
record_failure-Later d a work exn channel b to box max = elim (Option-cases a.failure_error) [
  | inr (e, f) ↦ subst (Later max box) (ground arith) (at_once box)
  | inl f ↦
      elim (Result-cases (
        record_outbox_failure a.failure_now a.failure_at work.id d.worker_id
          (failure_of d a exn b to) box)) [
            | inr (e, g) ↦ subst (Later max box) (ground arith) (at_once box)
            | inl (o, g) ↦
                let step : Step max box o.box =
                  fails {box = box} a.failure_now a.failure_at work.id d.worker_id
                    (failure_of d a exn b to) o g in
                subst (Later max box) (ground arith) (
                  Later-trans max box o.box _ (onward {between = box} (at_once box) step)
                    (after_failure-box d a work exn channel b max o))
          ]
]

complete_or_retry-Later :
    (d : Worker) (a : Answers) (work : Work) (reason : String) (box : Outbox) (max : ℕ)
    → Later max box (complete_or_retry d a work reason box).1
unfolding complete_or_retry
complete_or_retry-Later d a work reason box max = elim (Option-cases a.end_error) [
  | inr (e, f) ↦ subst (Later max box) (ground arith) (
      record_failure-Later d a work (condition (reason & ": " & e.message)) "unknown" none none box
        max)
  | inl f ↦ elim (Result-cases (complete_outbox_work a.end_now a.end_at work.id d.worker_id box)) [
    | inl (after, g) ↦ subst (Later max box) (ground arith) (
        onward {between = box} (at_once box)
          (completes {box = box} {after = after} a.end_now a.end_at work.id d.worker_id g))
    | inr (lease_lost, g) ↦ subst (Later max box) (ground arith) (at_once box)
    | inr (value_error m, g) ↦
        subst (Later max box) (ground arith) (
          record_failure-Later d a work (condition (reason & ": " & m)) "unknown" none none box max)
  ]
]

pub deliver-Later :
    (d : Worker) (a : Answers) (c : Case) (to text : String) (box : Outbox) (max : ℕ)
    → Later max box (deliver d a c (to, text) box).1
unfolding deliver
deliver-Later d a c to text box max = elim (Option-cases (c.binding.send_text to text)) [
  | inr (exn, e) ↦
      subst (Later max box) (ground arith)
        (record_failure-Later d a c.work exn c.channel (some c.binding) none box max)
  | inl e ↦
      subst (Later max box) (ground arith)
        (complete_or_retry-Later d a c.work "provider send succeeded" box max)
]

commit_reply-Later :
    (d : Worker) (a : Answers) (c : Case) (address text : String) (box : Outbox) (max : ℕ)
    → Later max box (commit_reply d a c address text box).1
unfolding commit_reply
commit_reply-Later d a c address text box max = elim (Option-cases a.intent_error) [
  | inr (exn, e) ↦ subst (Later max box) (ground arith) (
      record_failure-Later d a c.work exn c.channel (some c.binding) (fallback_to c address) box
        max)
  | inl e ↦
      elim (Result-cases (
        persist_outbound_intent a.intent_at c.work.id d.worker_id (d.encode address text)
          (c.inbound.meta_message_id & ":reply") box)) [
            | inl (after, f) ↦ subst (Later max box) (ground arith) (
                Later-trans max box after _
                  (onward {between = box} (at_once box) (
                    persists {box = box} {after = after} a.intent_at c.work.id d.worker_id
                      (d.encode address text) (c.inbound.meta_message_id & ":reply") f))
                  (deliver-Later d a c address text after max))
            | inr (lease_lost, f) ↦ subst (Later max box) (ground arith) (at_once box)
            | inr (value_error m, f) ↦
                let raised : Exn = record {
                  class_name = "ValueError";
                  message = m;
                  is_condition = false;
                } in
                subst (Later max box) (ground arith) (
                  record_failure-Later d a c.work raised c.channel (some c.binding)
                    (fallback_to c address) box max)
          ]
]

-- One processing of a row commits a sequence of transactions of the outbox, whatever fails on the
-- way.
pub process-Later :
    (d : Worker) (a : Answers) (work : Work) (box : Outbox) (max : ℕ)
    → Later max box (process_claimed_work d a work box).1
process-Later d a work box max =
    course (process_claimed_work d a work box) (process-Course d a work box)
  where
    course : (done : Done) → Course d a work box done → Later max box done.1
    course done (fails_with exn channel b served) =
        record_failure-Later d a work exn channel b none box max
    course done (closes reason) = complete_or_retry-Later d a work reason box max
    course done (resends c to text key same bound reply) = deliver-Later d a c to text box max
    course done (turn_fails c req exn same bound auth) =
        record_failure-Later d a c.work exn c.channel (some c.binding) (fallback_to c req.address)
          box max
    course done (is_silent c req thread asked text reason same auth) =
        complete_or_retry-Later d a c.work reason box max
    course done (answers c req thread asked text same bound auth) =
        commit_reply-Later d a c req.address text box max
