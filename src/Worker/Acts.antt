-- ===== src/Worker/Acts.antt =====
-- What a failure and an end of a row of services/webhook_worker.py do besides their transaction.
use agents_system.Prelude.{
  ℕ, ◌≤◌, ◌||◌, Bool, true, false, not, Option, none, some, String, ◌&◌, leb, ok, ◌≡◌, ◌≢◌, refl,
  sym, subst, ◌⊎◌, inl, inr, arith, Bool-cases, Option-cases, Result-cases, count_if,
  count_if-append,
}
use agents_system.Outbox.{Work, Outbox, value_error, lease_lost}
use agents_system.Outbox.Settle.{
  Failure, FailureOutcome, record_outbox_failure, complete_outbox_work, fail_on, fail_terminally,
  fail_for_now, fallback_of, is_unit,
}
use agents_system.Outbox.Changes.{failure_commits}
use agents_system.Worker.{
  Exn, Binding, Worker, Answers, Act, ran_turn, recorded, sent, counted, notified,
}
use agents_system.Worker.Failures.{
  condition, failure_of, fallback_reply, notify_terminal_failure, signals, try_fallback,
  send_fallback, after_failure, record_failure, complete_or_retry,
}

abbrev pub is_turn : Act → Bool
is_turn (ran_turn req) = true
is_turn (recorded thread user_text assistant_text) = false
is_turn (sent to body delivered) = false
is_turn (counted channel exn permanent) = false
is_turn (notified error) = false

abbrev pub is_send : Act → Bool
is_send (ran_turn req) = false
is_send (recorded thread user_text assistant_text) = false
is_send (sent to body delivered) = true
is_send (counted channel exn permanent) = false
is_send (notified error) = false

-- A failure commits no fallback that it was not given.
no_fallback :
    (now clock id : ℕ) (worker : String) (failure : Failure) (box : Outbox) (o : FailureOutcome)
    → record_outbox_failure now clock id worker failure box ≡ ok o
    → failure.fallback ≡ none
    → o.fallback_body ≡ none
unfolding fail_on fail_terminally fail_for_now
no_fallback now clock id worker failure box o h e =
    let (w, found, f) = failure_commits now clock id worker failure box o h in
    let no_reply : fallback_of failure.fallback w.outbound_body ≡ none =
      subst (λ f. fallback_of f w.outbound_body ≡ none) (sym e) (empty w.outbound_body) in
    elim (Bool-cases (not failure.retryable || leb failure.max_attempts w.attempt_count)) [
      | inl g ↦ ground arith
      | inr g ↦ elim (Bool-cases (is_unit failure.jitter)) [
        | inl u ↦ ground arith
        | inr u ↦ absurd (ground arith)
      ]
    ]
  where
    empty : (body : Option String) → fallback_of none body ≡ none
    empty none = unfold fallback_of in refl
    empty (some body) = unfold fallback_of in refl

try_fallback-acts :
    (d : Worker) (b : Binding) (body : String)
    → (count_if is_turn (try_fallback d b body).0 ≡ 0)
      × (count_if is_send (try_fallback d b body).0 ≤ 1)
unfolding try_fallback
try_fallback-acts d b body = elim (Option-cases (d.decode body)) [
  | inl e ↦ (ground arith, ground arith)
  | inr ((to, text), e) ↦ (ground arith, ground arith)
]

pub send_fallback-fst :
    (d : Worker) (a : Answers) (work : Work) (b : Binding) (body : String) (box : Outbox)
    → (send_fallback d a work b body box).0 ≡ (try_fallback d b body).0
unfolding send_fallback
send_fallback-fst d a work b body box = elim (Option-cases a.fallback_error) [
  | inl e ↦ ground arith
  | inr (exn, e) ↦ ground arith
]

send_fallback-acts :
    (d : Worker) (a : Answers) (work : Work) (b : Binding) (body : String) (box : Outbox)
    → (count_if is_turn (send_fallback d a work b body box).0 ≡ 0)
      × (count_if is_send (send_fallback d a work b body box).0 ≤ 1)
send_fallback-acts d a work b body box =
    rw (send_fallback-fst d a work b body box) (try_fallback-acts d b body)

pub signals-acts :
    (d : Worker) (exn : Exn) (channel : String) (b : Option Binding) (o : FailureOutcome)
    → (count_if is_turn (signals d exn channel b o) ≡ 0)
      × (count_if is_send (signals d exn channel b o) ≡ 0)
unfolding signals notify_terminal_failure
signals-acts d exn channel b o = (ground arith, ground arith)

-- The acts after a failure: no turn, and a send at most where a fallback was committed.
after_failure-acts :
    (d : Worker) (a : Answers) (work : Work) (exn : Exn) (channel : String) (b : Option Binding)
    (o : FailureOutcome)
    → let acts = (after_failure d a work exn channel b o).0 in
      (count_if is_turn acts ≡ 0)
      × (count_if is_send acts ≤ 1)
      × ((count_if is_send acts ≡ 0) ⊎ ((body : String) × (o.fallback_body ≡ some body)))
unfolding after_failure
after_failure-acts d a work exn channel none o =
    let (t, s) = signals-acts d exn channel none o in (t, omega (arith, s), inl s)
after_failure-acts d a work exn channel (some b) o =
    let (t, s) = signals-acts d exn channel (some b) o in
    elim (Option-cases o.fallback_body) [
      | inl e ↦ (ground arith, ground arith, inl (ground arith))
      | inr (body, e) ↦
          let (ft, fs) = send_fallback-acts d a work b body o.box in
          let acts = (send_fallback d a work b body o.box).0 in
          let ts = count_if-append is_turn (signals d exn channel (some b) o) acts in
          let ss = count_if-append is_send (signals d exn channel (some b) o) acts in
          (ground arith, ground arith, inr (body, e))
    ]

-- A failure of a row starts no turn, and sends one text at most, none without a fallback.
pub record_failure-acts :
    (d : Worker) (a : Answers) (work : Work) (exn : Exn) (channel : String) (b : Option Binding)
    (to : Option (String × String)) (box : Outbox)
    → let acts = (record_failure d a work exn channel b to box).0 in
      (count_if is_turn acts ≡ 0)
      × (count_if is_send acts ≤ 1)
      × ((count_if is_send acts ≡ 0) ⊎ (to ≢ none))
unfolding record_failure
record_failure-acts d a work exn channel b to box = elim (Option-cases a.failure_error) [
  | inr (e, f) ↦ (ground arith, ground arith, inl (ground arith))
  | inl f ↦
      elim (Result-cases (
        record_outbox_failure a.failure_now a.failure_at work.id d.worker_id
          (failure_of d a exn b to) box)) [
            | inr (e, g) ↦ (ground arith, ground arith, inl (ground arith))
            | inl (o, g) ↦
                let (t, s, n) = after_failure-acts d a work exn channel b o in
                (
                  ground arith,
                  ground arith,
                  elim n [
                    | inl none_sent ↦ inl (ground arith)
                    | inr (body, some_body) ↦ inr (λ absent.
                        let none_body =
                          no_fallback a.failure_now a.failure_at work.id d.worker_id
                            (failure_of d a exn b to) box o g (fallback_of_none absent) in
                        absurd (ground arith))
                  ],
                )
          ]
]
  where
    fallback_of_none : to ≡ none → (failure_of d a exn b to).fallback ≡ none
    fallback_of_none absent = unfold failure_of fallback_reply in rw absent refl

pub complete_or_retry-acts :
    (d : Worker) (a : Answers) (work : Work) (reason : String) (box : Outbox)
    → let acts = (complete_or_retry d a work reason box).0 in
      (count_if is_turn acts ≡ 0) × (count_if is_send acts ≡ 0)
unfolding complete_or_retry
complete_or_retry-acts d a work reason box = elim (Option-cases a.end_error) [
  | inr (e, f) ↦ no_acts (condition (reason & ": " & e.message)) (ground arith)
  | inl f ↦ elim (Result-cases (complete_outbox_work a.end_now a.end_at work.id d.worker_id box)) [
    | inl (after, g) ↦ (ground arith, ground arith)
    | inr (lease_lost, g) ↦ (ground arith, ground arith)
    | inr (value_error m, g) ↦ no_acts (condition (reason & ": " & m)) (ground arith)
  ]
]
  where
    no_acts :
        (exn : Exn)
        → complete_or_retry d a work reason box
          ≡ record_failure d a work exn "unknown" none none box
        → (count_if is_turn (complete_or_retry d a work reason box).0 ≡ 0)
          × (count_if is_send (complete_or_retry d a work reason box).0 ≡ 0)
    no_acts exn e =
        let (t, s, n) = record_failure-acts d a work exn "unknown" none none box in
        (rw e t, rw e (elim n [ inl z ↦ z | inr other ↦ absurd (other refl) ]))
