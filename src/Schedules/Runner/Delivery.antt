-- ===== src/Schedules/Runner/Delivery.antt =====
-- The turn and the delivery of a run in `_execute` of schedules.py.
use agents_system.Prelude.{
  ◌==◌, Bool, true, false, Option, String, string_eq, [], ◌∷◌, Result, ok, err, ◌≡◌, ◌≢◌, refl,
  arith, subst, sym, ◌⊎◌, Bool-cases, inl, inr,
}
use agents_system.Proactive.Queue.{Queue, enqueue}
use agents_system.Proactive.Dispatch.{
  Recipient, submit, not_granted, not_authorized, unknown_permission, Refusal,
}
use agents_system.Proactive.Dispatch.Checks.{IsGranted, submit_sound}
use agents_system.Schedules.Store.{Schedule}
use agents_system.Schedules.Runner.{
  Runner, Answers, Turn, ended, Checked, Status, Outcome, delivered, skipped, failed, out,
  after_submit, submit_raises, deliver, run_turn,
}

-- The message of a run was queued for the subject: the sender's own checks passed.
abbrev pub IsQueued : Runner → Answers → Schedule → String → String → Queue → Queue → Type 0
IsQueued runner a schedule key text q q' =
    IsGranted runner.registry runner.sender_ceiling schedule.runtime_id ("send:proactive" ∷ [])
    × (q' ≡ enqueue a.message_id schedule.runtime_id key text a.actor a.clock q)

-- A run that delivers has a property of the queue it leaves, and any other leaves the queue alone.
abbrev pub IsSound : (Queue → Type 0) → Queue → Outcome × Queue → Type 0
IsSound P q r = ((r.0.status ≡ delivered) × P r.1) ⊎ ((r.0.status ≢ delivered) × (r.1 ≡ q))

pub undelivered :
    (P : Queue → Type 0) (q : Queue) (r : Outcome × Queue) (status : Status) (reason : String)
    → r ≡ (out status reason, q)
    → status ≢ delivered
    → IsSound P q r
undelivered P q r status reason e other = subst (IsSound P q) (sym e) (inr (other, refl))

pub IsSound-map :
    (P Q : Queue → Type 0) (q : Queue) (r : Outcome × Queue)
    → ((q' : Queue) → P q' → Q q')
    → IsSound P q r
    → IsSound Q q r
IsSound-map P Q q r f (inl (done, p)) = inl (done, f r.1 p)
IsSound-map P Q q r f (inr (other, same)) = inr (other, same)

after_submit-IsSound :
    (runner : Runner) (a : Answers) (schedule : Schedule) (key text : String)
    (directory : Option Recipient) (q : Queue) (s : Result Refusal Queue)
    → submit runner.registry runner.sender_ceiling directory a.message_id schedule.runtime_id key
        text a.actor
        ("send:proactive" ∷ [])
        a.clock
        q
      ≡ s
    → IsSound (IsQueued runner a schedule key text q) q (after_submit s q)
unfolding after_submit
after_submit-IsSound runner a schedule key text directory q (ok q') h =
    let (g, _, e) =
      submit_sound runner.registry runner.sender_ceiling directory a.message_id schedule.runtime_id
        key text a.actor ("send:proactive" ∷ []) a.clock q q' h in
    inl (refl, (g, e))
after_submit-IsSound runner a schedule key text directory q (err not_granted) h =
    inr (λ d. cc, refl)
after_submit-IsSound runner a schedule key text directory q (err not_authorized) h =
    inr (λ d. cc, refl)
after_submit-IsSound runner a schedule key text directory q (err (unknown_permission _)) h =
    inr (λ d. cc, refl)

submit_raises-IsSound :
    (P : Queue → Type 0) (b : Result Refusal Bool) (q : Queue) → IsSound P q (submit_raises b q)
unfolding submit_raises
submit_raises-IsSound P (ok true) q = inr (λ d. cc, refl)
submit_raises-IsSound P (ok false) q = inr (λ d. cc, refl)
submit_raises-IsSound P (err e) q = inr (λ d. cc, refl)

module _ (runner : Runner) (a : Answers) (schedule : Schedule) where
  deliver-IsSound :
      (key text : String) (q : Queue)
      → IsSound (IsQueued runner a schedule key text q) q (deliver runner a schedule key text q)
  unfolding deliver
  deliver-IsSound key text q = by_check a.checked refl
    where
      by_check :
          (c : Checked)
          → a.checked ≡ c
          → IsSound (IsQueued runner a schedule key text q) q (deliver runner a schedule key text q)
      by_check Checked.raises e =
          rw e (submit_raises-IsSound (IsQueued runner a schedule key text q) _ q)
      by_check (Checked.answers directory) e =
          rw e (after_submit-IsSound runner a schedule key text directory q _ refl)

  -- The turn ended within its budget and its time, with an answer that was queued.
  abbrev pub HasAnswered : String → Queue → Queue → Type 0
  HasAnswered key q q' =
      (text : String) × (a.turn ≡ ended false false text)
      × (text ≢ "")
      × IsQueued runner a schedule key text q q'

  pub run_turn-IsSound :
      (key : String) (q : Queue) → IsSound (HasAnswered key q) q (run_turn runner a schedule key q)
  unfolding run_turn
  run_turn-IsSound key q = by_turn a.turn refl
    where
      none_sent :
          (status : Status) (reason : String)
          → run_turn runner a schedule key q ≡ (out status reason, q)
          → status ≢ delivered
          → IsSound (HasAnswered key q) q (run_turn runner a schedule key q)
      none_sent = undelivered (HasAnswered key q) q (run_turn runner a schedule key q)

      by_turn :
          (t : Turn) → a.turn ≡ t → IsSound (HasAnswered key q) q (run_turn runner a schedule key q)
      by_turn Turn.raises e = none_sent failed "turn_failed" (ground arith) (λ d. cc)
      by_turn (ended true late text) e = none_sent skipped "budget_refused" (ground arith) (λ d. cc)
      by_turn (ended false true text) e = none_sent failed "turn_timed_out" (ground arith) (λ d. cc)
      by_turn (ended false false text) e = elim (Bool-cases (text == "")) [
        | inl empty ↦ none_sent skipped "empty_reply" (ground arith) (λ d. cc)
        | inr full ↦
            let r : run_turn runner a schedule key q ≡ deliver runner a schedule key text q =
              ground arith in
            subst (IsSound (HasAnswered key q) q) (sym r) (
              IsSound-map (IsQueued runner a schedule key text q) (HasAnswered key q) q
                (deliver runner a schedule key text q)
                (λ q' queued. (text, e, ground arith, queued)) (deliver-IsSound key text q))
      ]
