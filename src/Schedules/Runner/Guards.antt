-- ===== src/Schedules/Runner/Guards.antt =====
-- The guards in front of the turn in `_execute` of schedules.py.
use agents_system.Prelude.{
  ℕ, ◌*◌, ◌-◌, ◌≤◌, true, false, none, some, String, ok, string_eq, ◌≡◌, refl, arith, subst, sym,
  ltb, contains, Bool-cases, Option-cases, Result-cases, inl, inr,
}
use agents_system.Proactive.Quiet.{quiet_until}
use agents_system.Proactive.Queue.{Queue}
use agents_system.Schedules.Recurrence.{second}
use agents_system.Schedules.Store.{Schedule}
use agents_system.Schedules.Runner.{
  Runner, Answers, Authorized, Outcome, skipped, failed, granted, run_turn, authorize, in_window,
  if_granted, execute,
}
use agents_system.Schedules.Runner.Delivery.{
  IsSound, undelivered, IsSound-map, HasAnswered, run_turn-IsSound,
}

module _ (runner : Runner) (a : Answers) (schedule : Schedule) where
  -- The directory named the subject, and its turn's answer was queued for it.
  abbrev pub HasRecipient : Queue → Queue → Type 0
  HasRecipient q q' =
      (key : String) × (a.authorized ≡ Authorized.answers (some key))
      × HasAnswered runner a schedule key q q'

  authorize-IsSound : (q : Queue) → IsSound (HasRecipient q) q (authorize runner a schedule q)
  unfolding authorize
  authorize-IsSound q = by_answer a.authorized refl
    where
      by_answer :
          (d : Authorized)
          → a.authorized ≡ d
          → IsSound (HasRecipient q) q (authorize runner a schedule q)
      by_answer Authorized.raises e =
          undelivered (HasRecipient q) q (authorize runner a schedule q) failed
            "recipient_lookup_failed" (ground arith) (λ d. cc)
      by_answer (Authorized.answers none) e =
          undelivered (HasRecipient q) q (authorize runner a schedule q) failed
            "recipient_not_authorized" (ground arith) (λ d. cc)
      by_answer (Authorized.answers (some key)) e =
          let r : authorize runner a schedule q ≡ run_turn runner a schedule key q = ground arith in
          subst (IsSound (HasRecipient q) q) (sym r) (
            IsSound-map (HasAnswered runner a schedule key q) (HasRecipient q) q
              (run_turn runner a schedule key q) (λ q' sent. (key, e, sent))
              (run_turn-IsSound runner a schedule key q))

  -- The run was claimed in time and outside quiet hours.
  abbrev pub IsTimely : ℕ → ℕ → Type 0
  IsTimely due now =
      (now - due ≤ runner.limits.missed_grace_s * second)
      × (quiet_until runner.limits.quiet_hours runner.limits.quiet_tz now ≡ none)

  in_window-IsSound :
      (due now : ℕ) (q : Queue)
      → IsSound
          (λ q'. IsTimely due now × HasRecipient q q')
          q
          (in_window runner a schedule due now q)
  unfolding in_window
  in_window-IsSound due now q =
      elim (Bool-cases (ltb (runner.limits.missed_grace_s * second) (now - due))) [
        | inl late ↦
            undelivered (λ q'. IsTimely due now × HasRecipient q q') q
              (in_window runner a schedule due now q) skipped "missed_window" (ground arith)
              (λ d. cc)
        | inr timely ↦
            elim (Option-cases (quiet_until runner.limits.quiet_hours runner.limits.quiet_tz now)) [
              | inr (until, quiet) ↦
                  undelivered (λ q'. IsTimely due now × HasRecipient q q') q
                    (in_window runner a schedule due now q) skipped "quiet_hours" (ground arith)
                    (λ d. cc)
              | inl loud ↦
                  let r : in_window runner a schedule due now q ≡ authorize runner a schedule q =
                    ground arith in
                  subst (IsSound (λ q'. IsTimely due now × HasRecipient q q') q) (sym r) (
                    IsSound-map (HasRecipient q) (λ q'. IsTimely due now × HasRecipient q q') q
                      (authorize runner a schedule q) (λ q' sent. ((ground arith, loud), sent))
                      (authorize-IsSound q))
            ]
      ]

  -- What a run passes before its answer is queued: the runtime is there, the deployment still grants
  -- it `write:schedule`, the claim is timely, and the directory names the subject.
  abbrev pub IsAllowed : ℕ → ℕ → Queue → Queue → Type 0
  IsAllowed due now q q' =
      (contains schedule.runtime_id runner.runtimes ≡ true)
      × (granted runner schedule.runtime_id "write:schedule" ≡ ok true)
      × IsTimely due now
      × HasRecipient q q'

  -- A run that delivers had a runtime that is there, `write:schedule` within the deployment's grants, a
  -- claim within the grace and outside quiet hours, a recipient that the directory names, a turn that
  -- ended within budget and time with a text, and the grant of `send:proactive`; its text is then the one
  -- message added to the queue, for that recipient. Any other run leaves the queue as it was.
  pub execute-IsSound :
      (due now : ℕ) (q : Queue) (r : Outcome × Queue)
      → execute runner a schedule due now q ≡ ok r
      → IsSound (IsAllowed due now q) q r
  unfolding execute if_granted
  execute-IsSound due now q r h = elim (Bool-cases (contains schedule.runtime_id runner.runtimes)) [
    | inr missing ↦
        undelivered (IsAllowed due now q) q r failed "runtime_unavailable" (ground arith) (λ d. cc)
    | inl there ↦ elim (Result-cases (granted runner schedule.runtime_id "write:schedule")) [
      | inr (e, unknown) ↦ absurd (ground arith)
      | inl (false, refused) ↦
          undelivered (IsAllowed due now q) q r skipped "not_permitted" (ground arith) (λ d. cc)
      | inl (true, allowed) ↦
          let same : r ≡ in_window runner a schedule due now q = ground arith in
          subst (IsSound (IsAllowed due now q) q) (sym same) (
            IsSound-map (λ q'. IsTimely due now × HasRecipient q q') (IsAllowed due now q) q
              (in_window runner a schedule due now q) (λ q' sent. (there, allowed, sent.0, sent.1))
              (in_window-IsSound due now q))
    ]
  ]
