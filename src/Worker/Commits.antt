-- ===== src/Worker/Commits.antt =====
-- What the worker of services/webhook_worker.py sends, against what the outbox holds.
use agents_system.Prelude.{
  ℕ, ◌==◌, ◌||◌, Bool, true, not, nat_eq, string_eq, Option, none, some, String, List, [], ◌∷◌,
  ◌++◌, map, leb, ok, ◌≡◌, refl, sym, subst, ap, ◌∙◌, inl, inr, arith, Bool-cases, Option-cases,
  count_if, All,
}
use agents_system.Outbox.{Work, Outbox}
use agents_system.Outbox.Claim.{update_row, terminal_row, terminalize_work}
use agents_system.Outbox.Settle.{
  is_live, Failure, FailureOutcome, record_outbox_failure, persist_outbound_intent, intent_row,
  reply_row, failure_row, fallback_of, fail_on, fail_terminally, fail_for_now, is_unit,
}
use agents_system.Outbox.Rows.{IsIn, map-IsIn}
use agents_system.Outbox.Steps.{Reach}
use agents_system.Outbox.Changes.{at_id, failure_commits, persist_commits, persist_on-rows}
use agents_system.Outbox.Replies.{Later, IsAnswer, reply_kept}
use agents_system.Worker.{Worker, Act, ran_turn, recorded, sent, counted, notified, persisted_reply}
use agents_system.Worker.Acts.{is_send}

-- What is sent is the reply that the row with this id holds.
abbrev pub IsCommitted : Worker → ℕ → Outbox → Act → Type 0
IsCommitted d id box (ran_turn req) = Unit {0}
IsCommitted d id box (recorded thread user_text assistant_text) = Unit {0}
IsCommitted d id box (sent to text delivered) =
    (row : Work) × IsIn row box.rows
    × (row.id ≡ id)
    × ((body : String) × (row.outbound_body ≡ some body) × (d.decode body ≡ some (to, text)))
IsCommitted d id box (counted channel exn permanent) = Unit {0}
IsCommitted d id box (notified error) = Unit {0}

pub unsent-IsCommitted :
    (d : Worker) (id : ℕ) (box : Outbox) (acts : List Act)
    → count_if is_send acts ≡ 0
    → All (IsCommitted d id box) acts
unsent-IsCommitted d id box [] z = tt
unsent-IsCommitted d id box (ran_turn req ∷ acts) z = (tt, unsent-IsCommitted d id box acts z)
unsent-IsCommitted d id box (recorded thread u t ∷ acts) z =
    (tt, unsent-IsCommitted d id box acts z)
unsent-IsCommitted d id box (sent to text delivered ∷ acts) z = absurd (omega (arith, z))
unsent-IsCommitted d id box (counted channel exn p ∷ acts) z =
    (tt, unsent-IsCommitted d id box acts z)
unsent-IsCommitted d id box (notified error ∷ acts) z = (tt, unsent-IsCommitted d id box acts z)

pub append-IsCommitted :
    (d : Worker) (id : ℕ) (box : Outbox) (acts more : List Act)
    → All (IsCommitted d id box) acts
    → All (IsCommitted d id box) more
    → All (IsCommitted d id box) (acts ++ more)
append-IsCommitted d id box [] more a m = m
append-IsCommitted d id box (act ∷ acts) more (h, a) m =
    (h, append-IsCommitted d id box acts more a m)

update_row-IsIn :
    (id : ℕ) (f : Work → Work) (w : Work) (rows : List Work)
    → w.id ≡ id
    → IsIn w rows
    → IsIn (f w) (update_row id f rows)
unfolding update_row
update_row-IsIn id f w rows same m =
    let e : at_id id f w ≡ f w = ground arith in
    subst (λ x. IsIn x (map (at_id id f) rows)) e (map-IsIn (at_id id f) w rows m)

-- The row of a terminal failure that committed a fallback.
terminal-row :
    (now : ℕ) (failure : Failure) (w : Work) (box : Outbox) (body : String)
    → IsIn w box.rows
    → (fail_terminally now failure w box).fallback_body ≡ some body
    → (row : Work) × IsIn row (fail_terminally now failure w box).box.rows
      × (row.id ≡ w.id)
      × (row.outbound_body ≡ some body)
unfolding fail_terminally terminalize_work terminal_row failure_row reply_row intent_row
terminal-row now failure w box body m e = from (fallback_of failure.fallback w.outbound_body) refl
  where
    change : Work → Work
    change x =
        reply_row (fallback_of failure.fallback w.outbound_body) (failure_row failure.error x)

    from :
        (reply : Option (String × String))
        → fallback_of failure.fallback w.outbound_body ≡ reply
        → (row : Work) × IsIn row (fail_terminally now failure w box).box.rows
          × (row.id ≡ w.id)
          × (row.outbound_body ≡ some body)
    from none f = absurd (ground arith)
    from (some (b, k)) f =
        let same : (change w).id ≡ w.id = rw f refl in
        let full : (change w).outbound_body ≡ some b = rw f refl in
        let given : (fail_terminally now failure w box).fallback_body ≡ some b = rw f refl in
        let first = update_row-IsIn w.id change w box.rows refl m in
        (
          terminal_row now failure.error (change w),
          update_row-IsIn w.id (terminal_row now failure.error) (change w)
              (update_row w.id change box.rows) same first,
          same,
          full ∙ sym given ∙ e,
        )

-- A failure that commits a fallback commits it to the row that was reported.
pub fallback-row :
    (now clock id : ℕ) (worker : String) (failure : Failure) (box : Outbox) (o : FailureOutcome)
    (body : String)
    → record_outbox_failure now clock id worker failure box ≡ ok o
    → o.fallback_body ≡ some body
    → (row : Work) × IsIn row o.box.rows × (row.id ≡ id) × (row.outbound_body ≡ some body)
unfolding fail_on fail_for_now is_live
fallback-row now clock id worker failure box o body h e =
    let (w, found, f) = failure_commits now clock id worker failure box o h in
    let ids : w.id ≡ id = live-id w found.1 in
    elim (Bool-cases (not failure.retryable || leb failure.max_attempts w.attempt_count)) [
      | inl g ↦
          let same : fail_terminally now failure w box ≡ o = ground arith in
          let (row, m, i, full) =
            terminal-row now failure w box body found.0
              (ap (λ (x : FailureOutcome). x.fallback_body) same ∙ e) in
          (row, subst (λ (x : FailureOutcome). IsIn row x.box.rows) same m, i ∙ ids, full)
      | inr g ↦ elim (Bool-cases (is_unit failure.jitter)) [
        | inl u ↦ absurd (ground arith)
        | inr u ↦ absurd (ground arith)
      ]
    ]
  where
    live-id : (w : Work) → is_live id worker clock w ≡ true → w.id ≡ id
    live-id w l = ground arith

-- A reply that is committed is held by the row that was reported.
pub intent-row :
    (clock id : ℕ) (worker body key : String) (box after : Outbox)
    → persist_outbound_intent clock id worker body key box ≡ ok after
    → (row : Work) × IsIn row after.rows × (row.id ≡ id) × IsAnswer body key row
unfolding is_live intent_row
intent-row clock id worker body key box after h =
    let (w, found, e) = persist_commits clock id worker body key box after h in
    let (same, k, b) = persist_on-rows body key box after w e in
    let ids : w.id ≡ id = live-id w found.1 in
    let kept : at_id w.id (intent_row body key) w ≡ intent_row body key w = ground arith in
    (
      intent_row body key w,
      subst (λ (x : Outbox). IsIn (intent_row body key w) x.rows) (sym same)
          (subst (λ r. IsIn r (map (at_id w.id (intent_row body key)) box.rows)) kept
            (map-IsIn (at_id w.id (intent_row body key)) w box.rows found.0)),
      ids,
      (refl, refl),
    )
  where
    live-id : (w : Work) → is_live id worker clock w ≡ true → w.id ≡ id
    live-id w l = ground arith

-- A committed reply is committed for good.
pub answer-IsCommitted :
    (max : ℕ) (d : Worker) (id : ℕ) (box after : Outbox) (row : Work) (body key to text : String)
    (delivered : Bool)
    → Reach max box
    → Later max box after
    → IsIn row box.rows
    → row.id ≡ id
    → IsAnswer body key row
    → d.decode body ≡ some (to, text)
    → IsCommitted d id after (sent to text delivered)
answer-IsCommitted max d id box after row body key to text delivered r l m i a e =
    let (row', m', i', a') = reply_kept max box after row body key r l m a in
    (row', m', i' ∙ i, (body, a'.0, e))

-- The reply of a claimed row that can be sent again.
pub persisted-IsAnswer :
    (d : Worker) (work : Work) (to text key : String)
    → persisted_reply d work ≡ some ((to, text), key)
    → (body : String) × IsAnswer body key work × (d.decode body ≡ some (to, text))
unfolding persisted_reply
persisted-IsAnswer d work to text key e = from work.outbound_body work.outbound_send_key refl refl
  where
    from :
        (body : Option String) (held : Option String)
        → work.outbound_body ≡ body
        → work.outbound_send_key ≡ held
        → (b : String) × IsAnswer b key work × (d.decode b ≡ some (to, text))
    from none held p q = absurd (ground arith)
    from (some b) none p q = absurd (ground arith)
    from (some b) (some k) p q = elim (Bool-cases (k == "")) [
      | inl z ↦ absurd (ground arith)
      | inr z ↦ elim (Option-cases (d.decode b)) [
        | inl n ↦ absurd (ground arith)
        | inr ((t, x), n) ↦ (b, (p, ground arith), ground arith)
      ]
    ]
