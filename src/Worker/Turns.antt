-- ===== src/Worker/Turns.antt =====
-- The turns and the sends of one processing of a row in services/webhook_worker.py.
use agents_system.Prelude.{
  ◌≤◌, ◌&&◌, false, Option, none, some, String, List, [], ◌∷◌, ◌++◌, ◌&◌, Some, ◌≡◌, refl, subst,
  ap, inl, inr, arith, Bool-cases, Option-cases, Result-cases, count_if,
}
use agents_system.Outbox.{Work, Outbox, value_error, lease_lost}
use agents_system.Outbox.Settle.{persist_outbound_intent}
use agents_system.Worker.{Exn, TurnRequest, Binding, Worker, Answers, Act, ran_turn, Done}
use agents_system.Worker.Failures.{record_failure, complete_or_retry}
use agents_system.Worker.Process.{
  Case, fallback_to, deliver, commit_reply, record_turn, process_claimed_work,
}
use agents_system.Worker.Courses.{
  IsAuthorized, Course, fails, closes, resends, turn_fails, is_silent, answers,
}
use agents_system.Worker.Courses.Taken.{process-Course}
use agents_system.Worker.Acts.{is_turn, is_send, record_failure-acts, complete_or_retry-acts}

-- The acts start no turn and send one text at most.
abbrev IsQuiet : List Act → Type 0
IsQuiet acts = (count_if is_turn acts ≡ 0) × (count_if is_send acts ≤ 1)

record_failure-IsQuiet :
    (d : Worker) (a : Answers) (work : Work) (exn : Exn) (channel : String) (b : Option Binding)
    (to : Option (String × String)) (box : Outbox)
    → IsQuiet (record_failure d a work exn channel b to box).0
record_failure-IsQuiet d a work exn channel b to box =
    let (t, s, n) = record_failure-acts d a work exn channel b to box in (t, s)

complete_or_retry-IsQuiet :
    (d : Worker) (a : Answers) (work : Work) (reason : String) (box : Outbox)
    → IsQuiet (complete_or_retry d a work reason box).0
complete_or_retry-IsQuiet d a work reason box =
    let (t, s) = complete_or_retry-acts d a work reason box in (t, omega (arith, s))

deliver-IsQuiet :
    (d : Worker) (a : Answers) (c : Case) (to text : String) (box : Outbox)
    → IsQuiet (deliver d a c (to, text) box).0
unfolding deliver
deliver-IsQuiet d a c to text box = elim (Option-cases (c.binding.send_text to text)) [
  | inr (exn, e) ↦
      let (t, s, n) = record_failure-acts d a c.work exn c.channel (some c.binding) none box in
      let zero_sent : count_if is_send
            (record_failure d a c.work exn c.channel (some c.binding) none box).0
          ≡ 0 =
        elim n [ inl z ↦ z | inr other ↦ absurd (other refl) ] in
      (ground arith, ground arith)
  | inl e ↦
      let (t, s) = complete_or_retry-acts d a c.work "provider send succeeded" box in
      (ground arith, ground arith)
]

commit_reply-IsQuiet :
    (d : Worker) (a : Answers) (c : Case) (address text : String) (box : Outbox)
    → IsQuiet (commit_reply d a c address text box).0
unfolding commit_reply
commit_reply-IsQuiet d a c address text box = elim (Option-cases a.intent_error) [
  | inr (exn, e) ↦
      let (t, s) =
        record_failure-IsQuiet d a c.work exn c.channel (some c.binding) (fallback_to c address)
          box in
      (ground arith, ground arith)
  | inl e ↦
      elim (Result-cases (
        persist_outbound_intent a.intent_at c.work.id d.worker_id (d.encode address text)
          (c.inbound.meta_message_id & ":reply") box)) [
            | inl (after, f) ↦
                let (t, s) = deliver-IsQuiet d a c address text after in
                (ground arith, ground arith)
            | inr (lease_lost, f) ↦ (ground arith, ground arith)
            | inr (value_error m, f) ↦
                let raised : Exn = record {
                  class_name = "ValueError";
                  message = m;
                  is_condition = false;
                } in
                let (t, s) =
                  record_failure-IsQuiet d a c.work raised c.channel (some c.binding)
                    (fallback_to c address) box in
                (ground arith, ground arith)
          ]
]

-- The acts of one turn, and of what follows it: as `IsQuiet`, but for the one turn.
abbrev IsOneTurn : Worker → Work → Outbox → List Act → Type 0
IsOneTurn d work box acts =
    (count_if is_turn acts ≤ 1)
    × (count_if is_send acts ≤ 1)
    × ((req : TurnRequest)
        → Some (λ act. act ≡ ran_turn req) acts
        → (b : Binding) × IsAuthorized d work box b req)

no_turn :
    (acts : List Act) (req : TurnRequest)
    → count_if is_turn acts ≡ 0
    → Some (λ act. act ≡ ran_turn req) acts
    → ⊥
no_turn [] req z h = h
no_turn (act ∷ acts) req z (inl e) = absurd (ground (arith, ap is_turn e))
no_turn (act ∷ acts) req z (inr h) = no_turn acts req (quiet act acts z) h
  where
    quiet :
        (act : Act) (acts : List Act)
        → count_if is_turn (act ∷ acts) ≡ 0
        → count_if is_turn acts ≡ 0
    quiet act acts z = ground arith

quiet-IsOneTurn :
    (d : Worker) (work : Work) (box : Outbox) (acts : List Act)
    → IsQuiet acts
    → IsOneTurn d work box acts
quiet-IsOneTurn d work box acts (t, s) =
    (omega (arith, t), s, λ req h. absurd (no_turn acts req t h))

-- A turn, the record of it, and quiet acts.
turn-IsOneTurn :
    (d : Worker) (work : Work) (box : Outbox) (b : Binding) (req : TurnRequest) (more : List Act)
    → IsAuthorized d work box b req
    → IsQuiet more
    → IsOneTurn d work box (ran_turn req ∷ more)
turn-IsOneTurn d work box b req more auth (t, s) = (
  ground arith,
  ground arith,
  λ r h. elim h [
    | inl e ↦ (b, subst (IsAuthorized d work box b) (request_eq req r e) auth)
    | inr there ↦ absurd (no_turn more r t there)
  ],
)
  where
    request_eq : (p q : TurnRequest) → ran_turn p ≡ ran_turn q → p ≡ q
    request_eq p q e = cc

record_turn-IsQuiet :
    (d : Worker) (c : Case) (thread asked text : String) (more : List Act)
    → IsQuiet more
    → IsQuiet (record_turn d c thread asked text ++ more)
unfolding record_turn
record_turn-IsQuiet d c thread asked text more (t, s) =
    elim (Bool-cases (c.binding.persist_conversation && d.has_recorder)) [
      | inl e ↦ (ground arith, ground arith)
      | inr e ↦ (ground arith, ground arith)
    ]

-- One processing of a claimed row runs one turn at most, and only where the row has no committed reply
-- that can be sent again: for the text that the adapter of the message's channel reads from the row's
-- message, with that channel's runtime, for the active participant whom the directory names for the
-- sender's address on that channel. It sends one text at most, the fallback included.
pub process-IsOneTurn :
    (d : Worker) (a : Answers) (work : Work) (box : Outbox)
    → let acts = (process_claimed_work d a work box).0 in
      (count_if is_turn acts ≤ 1)
      × (count_if is_send acts ≤ 1)
      × ((req : TurnRequest)
          → Some (λ act. act ≡ ran_turn req) acts
          → (b : Binding) × IsAuthorized d work box b req)
process-IsOneTurn d a work box =
    course (process_claimed_work d a work box) (process-Course d a work box)
  where
    course : (done : Done) → Course d a work box done → IsOneTurn d work box done.0
    course done (fails exn channel b served) =
        quiet-IsOneTurn d work box _ (record_failure-IsQuiet d a work exn channel b none box)
    course done (closes reason) =
        quiet-IsOneTurn d work box _ (complete_or_retry-IsQuiet d a work reason box)
    course done (resends c to text key same bound reply) =
        quiet-IsOneTurn d work box _ (deliver-IsQuiet d a c to text box)
    course done (turn_fails c req exn same bound auth) =
        turn-IsOneTurn d work box c.binding req _ auth (
          record_failure-IsQuiet d a c.work exn c.channel (some c.binding)
            (fallback_to c req.address) box)
    course done (is_silent c req thread asked text reason same auth) =
        turn-IsOneTurn d work box c.binding req _ auth (
          record_turn-IsQuiet d c thread asked text _
            (complete_or_retry-IsQuiet d a c.work reason box))
    course done (answers c req thread asked text same bound auth) =
        turn-IsOneTurn d work box c.binding req _ auth (
          record_turn-IsQuiet d c thread asked text _
            (commit_reply-IsQuiet d a c req.address text box))
