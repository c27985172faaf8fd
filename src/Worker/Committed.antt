-- ===== src/Worker/Committed.antt =====
-- The sends of one processing of a row of services/webhook_worker.py, against the outbox after it.
use agents_system.Prelude.{
  ℕ, Bool, true, false, Option, none, some, String, [], ◌∷◌, ◌++◌, ◌&◌, ◌≡◌, ◌≢◌, refl, sym, subst,
  ap, ◌⊎◌, inl, inr, arith, Option-cases, Result-cases, All,
}
use agents_system.Outbox.{Work, Outbox, value_error, lease_lost}
use agents_system.Outbox.Settle.{persist_outbound_intent}
use agents_system.Outbox.Rows.{IsIn}
use agents_system.Outbox.Steps.{Reach, persists, next}
use agents_system.Outbox.Replies.{IsAnswer}
use agents_system.Worker.{Exn, Worker, Answers, sent, Done}
use agents_system.Worker.Failures.{record_failure, complete_or_retry}
use agents_system.Worker.Process.{
  Case, fallback_to, deliver, commit_reply, record_turn, process_claimed_work,
}
use agents_system.Worker.Courses.{Course, fails, closes, resends, turn_fails, is_silent, answers}
use agents_system.Worker.Courses.Taken.{process-Course}
use agents_system.Worker.Acts.{record_failure-acts, complete_or_retry-acts}
use agents_system.Worker.Transactions.{deliver-Later}
use agents_system.Worker.Commits.{
  IsCommitted, unsent-IsCommitted, append-IsCommitted, intent-row, answer-IsCommitted,
  persisted-IsAnswer,
}
use agents_system.Worker.Fallbacks.{AreCommitted, record_failure-AreCommitted}

-- A send of a reply that a row of the table holds, and what follows it.
deliver-AreCommitted :
    (d : Worker) (a : Answers) (c : Case) (to text body key : String) (box : Outbox) (row : Work)
    (max : ℕ)
    → Reach max box
    → IsIn row box.rows
    → row.id ≡ c.work.id
    → IsAnswer body key row
    → d.decode body ≡ some (to, text)
    → AreCommitted d c.work.id (deliver d a c (to, text) box)
unfolding deliver
deliver-AreCommitted d a c to text body key box row max r m same answer e =
    let later = deliver-Later d a c to text box max in
    let held : (delivered : Bool)
        → IsCommitted d c.work.id (deliver d a c (to, text) box).1 (sent to text delivered) =
      λ delivered.
        answer-IsCommitted max d c.work.id box _ row body key to text delivered r later m same
          answer e in
    elim (Option-cases (c.binding.send_text to text)) [
      | inr (exn, f) ↦
          let rest = record_failure d a c.work exn c.channel (some c.binding) none box in
          let eq : deliver d a c (to, text) box ≡ (sent to text false ∷ rest.0, rest.1) =
            ground arith in
          let unsent =
            elim_none none _ refl
              (record_failure-acts d a c.work exn c.channel (some c.binding) none box).2 in
          subst (AreCommitted d c.work.id) (sym eq) (
            subst (λ x. IsCommitted d c.work.id x (sent to text false)) (ap (λ (x : Done). x.1) eq)
                (held false),
            unsent-IsCommitted d c.work.id rest.1 rest.0 unsent,
          )
      | inl f ↦
          let rest = complete_or_retry d a c.work "provider send succeeded" box in
          let eq : deliver d a c (to, text) box ≡ (sent to text true ∷ rest.0, rest.1) =
            ground arith in
          let unsent = (complete_or_retry-acts d a c.work "provider send succeeded" box).1 in
          subst (AreCommitted d c.work.id) (sym eq) (
            subst (λ x. IsCommitted d c.work.id x (sent to text true)) (ap (λ (x : Done). x.1) eq)
                (held true),
            unsent-IsCommitted d c.work.id rest.1 rest.0 unsent,
          )
    ]
  where
    elim_none : (to : Option (String × String)) (n : ℕ) → to ≡ none → (n ≡ 0) ⊎ (to ≢ none) → n ≡ 0
    elim_none to n absent (inl z) = z
    elim_none to n absent (inr other) = absurd (other absent)

commit_reply-AreCommitted :
    (d : Worker) (a : Answers) (c : Case) (address text : String) (box : Outbox) (max : ℕ)
    → Reach max box
    → d.decode (d.encode address text) ≡ some (address, text)
    → AreCommitted d c.work.id (commit_reply d a c address text box)
unfolding commit_reply
commit_reply-AreCommitted d a c address text box max r json =
    let key = c.inbound.meta_message_id & ":reply" in
    let body = d.encode address text in
    elim (Option-cases a.intent_error) [
      | inr (exn, e) ↦ failing exn (ground arith)
      | inl e ↦
          elim (Result-cases
            (persist_outbound_intent a.intent_at c.work.id d.worker_id body key box)) [
              | inl (after, f) ↦
                  let (row, m, same, answer) =
                    intent-row a.intent_at c.work.id d.worker_id body key box after f in
                  let r' = next {box = box} r (
                    persists {box = box} {after = after} a.intent_at c.work.id d.worker_id body key
                      f) in
                  let eq : commit_reply d a c address text box
                      ≡ deliver d a c (address, text) after =
                    ground arith in
                  subst (AreCommitted d c.work.id) (sym eq) (
                    deliver-AreCommitted d a c address text body key after row max r' m same answer
                      json)
              | inr (lease_lost, f) ↦
                  let eq : commit_reply d a c address text box ≡ ([], box) = ground arith in
                  subst (AreCommitted d c.work.id) (sym eq) tt
              | inr (value_error m, f) ↦
                  failing (record { class_name = "ValueError"; message = m; is_condition = false })
                    (ground arith)
            ]
    ]
  where
    failing :
        (exn : Exn)
        → commit_reply d a c address text box
          ≡ record_failure d a c.work exn c.channel (some c.binding) (fallback_to c address) box
        → AreCommitted d c.work.id (commit_reply d a c address text box)
    failing exn eq = subst (AreCommitted d c.work.id) (sym eq) (
        record_failure-AreCommitted d a c.work exn c.channel (some c.binding)
          (fallback_to c address) box)

turn-AreCommitted :
    (d : Worker) (id : ℕ) (c : Case) (thread asked text : String) (done : Done)
    → AreCommitted d id done
    → All (IsCommitted d id done.1) (record_turn d c thread asked text ++ done.0)
unfolding record_turn
turn-AreCommitted d id c thread asked text done h =
    append-IsCommitted d id done.1 (record_turn d c thread asked text) done.0
      (unsent-IsCommitted d id done.1 (record_turn d c thread asked text) (ground arith)) h

-- Whatever is sent while a row is processed, by its first claim, by a later one or as a fallback, is
-- what the row holds as its reply in the tables that the processing leaves. The worker and the
-- deployment may fail anywhere on the way; JSON reads a reply back as it was written.
pub process-AreCommitted :
    (d : Worker) (a : Answers) (work : Work) (box : Outbox) (max : ℕ)
    → Reach max box
    → IsIn work box.rows
    → ((to text : String) → d.decode (d.encode to text) ≡ some (to, text))
    → let done = process_claimed_work d a work box in All (IsCommitted d work.id done.1) done.0
process-AreCommitted d a work box max r m json =
    course (process_claimed_work d a work box) (process-Course d a work box)
  where
    course : (done : Done) → Course d a work box done → AreCommitted d work.id done
    course done (fails exn channel b served) =
        record_failure-AreCommitted d a work exn channel b none box
    course done (closes reason) =
        let rest = complete_or_retry d a work reason box in
        unsent-IsCommitted d work.id rest.1 rest.0 (complete_or_retry-acts d a work reason box).1
    course done (resends c to text key same bound reply) =
        let (body, answer, e) = persisted-IsAnswer d work to text key reply in
        subst (λ (w : Work). AreCommitted d w.id (deliver d a c (to, text) box)) same
          (deliver-AreCommitted d a c to text body key box work max r m
            (ap (λ (w : Work). w.id) (sym same)) answer e)
    course done (turn_fails c req exn same bound auth) = (
      tt,
      subst
          (λ (w : Work). AreCommitted d w.id (
            record_failure d a c.work exn c.channel (some c.binding) (fallback_to c req.address)
              box))
          same
          (record_failure-AreCommitted d a c.work exn c.channel (some c.binding)
            (fallback_to c req.address) box),
    )
    course done (is_silent c req thread asked text reason same auth) =
        let rest = complete_or_retry d a c.work reason box in
        (
          tt,
          turn-AreCommitted d work.id c thread asked text rest (
              unsent-IsCommitted d work.id rest.1 rest.0
                (complete_or_retry-acts d a c.work reason box).1),
        )
    course done (answers c req thread asked text same bound auth) =
        let rest = commit_reply d a c req.address text box in
        (
          tt,
          turn-AreCommitted d work.id c thread asked text rest (
              subst (λ (w : Work). AreCommitted d w.id rest) same
                (commit_reply-AreCommitted d a c req.address text box max r
                  (json req.address text))),
        )
