-- ===== src/Worker/Fallbacks.antt =====
-- The sends of a failure of services/webhook_worker.py, against the outbox after it.
use agents_system.Prelude.{
  ℕ, is_none, Option, none, some, String, [], ◌∷◌, ◌++◌, ◌≡◌, sym, subst, inl, inr, arith,
  Option-cases, Result-cases, All,
}
use agents_system.Outbox.{Work, Outbox}
use agents_system.Outbox.Settle.{FailureOutcome, record_outbox_failure, record_fallback_delivery}
use agents_system.Outbox.Rows.{IsIn}
use agents_system.Worker.{Exn, Binding, Worker, Answers, sent, Done}
use agents_system.Worker.Failures.{
  failure_of, signals, try_fallback, send_fallback, after_failure, record_failure,
}
use agents_system.Worker.Acts.{signals-acts, send_fallback-fst}
use agents_system.Worker.Commits.{IsCommitted, unsent-IsCommitted, append-IsCommitted, fallback-row}

-- Each text that was sent is in the row with this id.
abbrev pub AreCommitted : Worker → ℕ → Done → Type 0
AreCommitted d id done = All (IsCommitted d id done.1) done.0

send_fallback-rows :
    (d : Worker) (a : Answers) (work : Work) (b : Binding) (body : String) (box : Outbox)
    → (send_fallback d a work b body box).1.rows ≡ box.rows
unfolding send_fallback record_fallback_delivery
send_fallback-rows d a work b body box = elim (Option-cases a.fallback_error) [
  | inl e ↦ ground arith
  | inr (exn, e) ↦ ground arith
]

send_fallback-AreCommitted :
    (d : Worker) (a : Answers) (work : Work) (b : Binding) (body : String) (box : Outbox)
    (row : Work) (id : ℕ)
    → IsIn row box.rows
    → row.id ≡ id
    → row.outbound_body ≡ some body
    → AreCommitted d id (send_fallback d a work b body box)
unfolding try_fallback
send_fallback-AreCommitted d a work b body box row id m same full =
    let after = (send_fallback d a work b body box).1 in
    let in_after : IsIn row after.rows =
      subst (IsIn row) (sym (send_fallback-rows d a work b body box)) m in
    subst (All (IsCommitted d id after)) (sym (send_fallback-fst d a work b body box))
      (elim (Option-cases (d.decode body)) [
        | inl e ↦
            let acts : (try_fallback d b body).0 ≡ [] = ground arith in
            subst (All (IsCommitted d id after)) (sym acts) tt
        | inr ((to, text), e) ↦
            let acts : (try_fallback d b body).0
                ≡ sent to text (is_none (b.send_text to text)) ∷ [] =
              ground arith in
            subst (All (IsCommitted d id after)) (sym acts)
              ((row, in_after, same, (body, full, e)), tt)
      ])

after_failure-AreCommitted :
    (d : Worker) (a : Answers) (work : Work) (exn : Exn) (channel : String) (b : Option Binding)
    (o : FailureOutcome) (id : ℕ)
    → ((body : String)
        → o.fallback_body ≡ some body
        → (row : Work) × IsIn row o.box.rows × (row.id ≡ id) × (row.outbound_body ≡ some body))
    → AreCommitted d id (after_failure d a work exn channel b o)
unfolding after_failure
after_failure-AreCommitted d a work exn channel none o id rows =
    unsent-IsCommitted d id o.box _ (signals-acts d exn channel none o).1
after_failure-AreCommitted d a work exn channel (some b) o id rows =
    elim (Option-cases o.fallback_body) [
      | inl e ↦
          let eq : after_failure d a work exn channel (some b) o
              ≡ (signals d exn channel (some b) o, o.box) =
            ground arith in
          subst (AreCommitted d id) (sym eq) (
            unsent-IsCommitted d id o.box (signals d exn channel (some b) o)
              (signals-acts d exn channel (some b) o).1)
      | inr (body, e) ↦
          let (row, m, same, full) = rows body e in
          let after = send_fallback d a work b body o.box in
          let eq : after_failure d a work exn channel (some b) o
              ≡ (signals d exn channel (some b) o ++ after.0, after.1) =
            ground arith in
          subst (AreCommitted d id) (sym eq) (
            append-IsCommitted d id after.1 (signals d exn channel (some b) o) after.0
              (unsent-IsCommitted d id after.1 (signals d exn channel (some b) o)
                (signals-acts d exn channel (some b) o).1)
              (send_fallback-AreCommitted d a work b body o.box row id m same full))
    ]

pub record_failure-AreCommitted :
    (d : Worker) (a : Answers) (work : Work) (exn : Exn) (channel : String) (b : Option Binding)
    (to : Option (String × String)) (box : Outbox)
    → AreCommitted d work.id (record_failure d a work exn channel b to box)
unfolding record_failure
record_failure-AreCommitted d a work exn channel b to box = elim (Option-cases a.failure_error) [
  | inr (e, f) ↦
      let eq : record_failure d a work exn channel b to box ≡ ([], box) = ground arith in
      subst (AreCommitted d work.id) (sym eq) tt
  | inl f ↦
      elim (Result-cases (
        record_outbox_failure a.failure_now a.failure_at work.id d.worker_id
          (failure_of d a exn b to) box)) [
            | inr (e, g) ↦
                let eq : record_failure d a work exn channel b to box ≡ ([], box) = ground arith in
                subst (AreCommitted d work.id) (sym eq) tt
            | inl (o, g) ↦
                let eq : record_failure d a work exn channel b to box
                    ≡ after_failure d a work exn channel b o =
                  ground arith in
                subst (AreCommitted d work.id) (sym eq) (
                  after_failure-AreCommitted d a work exn channel b o work.id (λ body e.
                    fallback-row a.failure_now a.failure_at work.id d.worker_id
                      (failure_of d a exn b to) box o body g e))
          ]
]
