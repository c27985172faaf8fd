-- ===== src/Tests/Outbox.antt =====
-- Two messages of one conversation, and the workers that claim and report them.
use agents_system.Prelude.{
  ℕ, ◌+◌, ◌*◌, ◌^◌, min, ◌≤◌, ◌<◌, Bool, true, false, none, some, String, string_eq, nat_eq, [],
  ◌∷◌, map, ◌≡◌, ◌≢◌, ◌⊎◌, refl, ap, subst, inl, inr, arith, ok, err, All, is_none, String_discrete,
  ℕ_discrete,
}
use agents_system.Outbox.{
  Work, Inbound, Outbox, channel_scoped_key, new_work, find_inbound, insert_inbound,
  accept_inbound_message, is_terminal, is_older, is_older_sibling, is_pending, insert_ordered,
  ordered, take, pending_outbox_work, count_outbox_backlog,
}
use agents_system.Outbox.Claim.{
  update_row, terminal_row, terminalize_work, lease_row, exhausted_error, claim_row, claim_one,
  ClaimOutcome, claim_rows, claim_available_outbox_work, integrity_error, has_two_leases, is_leased,
}
use agents_system.Outbox.Settle.{
  is_live, find_live, locked_live_work, conflicts, intent_row, persist_on, persist_outbound_intent,
  complete_row, complete_outbox_work, ratio, is_unit, rounded, retry_window_seconds, retry_delay,
  FailureOutcome, fallback_of, failure_row, reply_row, retry_row, Failure, fail_terminally,
  fail_for_now, fail_on, record_outbox_failure, record_fallback_delivery,
}
use agents_system.Outbox.Rows.{IsIn}
use agents_system.Outbox.Steps.{Step, accepts, claims, persists, completes, Reach, start, next}
use agents_system.Outbox.Changes.{IsFound, at_id}
use agents_system.Outbox.Order.{LeasedBefore, one_lease}
use agents_system.Outbox.InOrder.{IsInOrder}
use agents_system.Outbox.Ended.{EndsRow}
use agents_system.Outbox.Fencing.{HoldsUntil, AreLost, claim-fences}
use agents_system.Outbox.Draining
use agents_system.Outbox.Crashes.{all_left, crash_rounds, crashes_drain}
use agents_system.Outbox.Lifecycle.{Move, phase, step-Move}
use agents_system.Outbox.Replies.{
  at_once, onward, terminal_stays, attempts_capped, IsAnswer, reply_kept,
}
use agents_system.Outbox.Backoff.{failure-outcome}
use agents_system.Outbox.Accept.{accept-again}

runs : Unit {0}
unfolding channel_scoped_key new_work find_inbound insert_inbound accept_inbound_message is_terminal
    is_older is_older_sibling is_pending insert_ordered ordered take pending_outbox_work
    count_outbox_backlog update_row terminal_row terminalize_work lease_row exhausted_error
    claim_row claim_one claim_rows is_leased has_two_leases claim_available_outbox_work is_live
    find_live locked_live_work conflicts intent_row persist_on persist_outbound_intent complete_row
    complete_outbox_work is_unit rounded retry_window_seconds retry_delay fallback_of failure_row
    reply_row retry_row fail_terminally fail_for_now fail_on record_outbox_failure
    record_fallback_delivery crash_rounds phase String_discrete ℕ_discrete
runs = tt

abbrev empty : Outbox
empty = record { inbox = []; rows = []; events = [] }

abbrev hello_in : Inbound
hello_in = record { id = 7; channel = "whatsapp"; meta_message_id = "m1"; payload = "{}" }

abbrev again_in : Inbound
again_in = record { id = 8; channel = "whatsapp"; meta_message_id = "m2"; payload = "{}" }

abbrev hello : Work
hello = record {
  id = 1;
  inbound_message_id = 7;
  conversation_key = "ana";
  enqueued_at = 5;
  available_at = 5;
  lease_expires_at = none;
  lease_owner = none;
  attempt_count = 0;
  last_error = none;
  failed_at = none;
  outbound_body = none;
  outbound_send_key = none;
  completed_at = none;
}

abbrev again : Work
again = record hello { id = 2; inbound_message_id = 8; enqueued_at = 6; available_at = 6 }

abbrev one_row : Outbox
one_row = record { inbox = hello_in ∷ []; rows = hello ∷ []; events = [] }

abbrev pub two_rows : Outbox
two_rows = record { inbox = hello_in ∷ again_in ∷ []; rows = hello ∷ again ∷ []; events = [] }

abbrev pub leased_hello : Work
leased_hello = record hello {
  lease_owner = some "w1";
  lease_expires_at = some 40;
  attempt_count = 1;
}

abbrev pub leased_box : Outbox
leased_box = record two_rows { rows = leased_hello ∷ again ∷ [] }

abbrev claim_outcome : ClaimOutcome
claim_outcome = record { claimed = leased_hello ∷ []; terminalized = []; box = leased_box }

abbrev answered_hello : Work
answered_hello = record leased_hello { outbound_body = some "{hi}"; outbound_send_key = some "k" }

abbrev answered_box : Outbox
answered_box = record two_rows { rows = answered_hello ∷ again ∷ [] }

abbrev done_hello : Work
done_hello = record answered_hello {
  completed_at = some 20;
  lease_owner = none;
  lease_expires_at = none;
}

abbrev done_box : Outbox
done_box = record two_rows { rows = done_hello ∷ again ∷ [] }

abbrev pub nobody : ℕ → Bool
nobody id = false

first_claim : claim_available_outbox_work 10 nobody "w1" 5 30 2 two_rows ≡ ok claim_outcome
unfolding runs
first_claim = refl

accept_hello : Step 2 empty one_row
unfolding runs
accept_hello =
    accepts {box = empty} 7 1 5 "m1" "{}" "ana" "whatsapp"
      (record { inbound_message_id = 7; duplicate = false; box = one_row }) (λ s i. absurd i) refl

accept_again : Step 2 one_row two_rows
unfolding runs
accept_again =
    accepts {box = one_row} 8 2 6 "m2" "{}" "ana" "whatsapp"
      (record { inbound_message_id = 8; duplicate = false; box = two_rows })
      (λ s i. elim i [
        | inl e ↦ subst (λ (x : Work). x.id ≢ 2) e (λ p. cc)
        | inr other ↦ absurd other
      ])
      refl

pub reach_two : Reach 2 two_rows
reach_two = next {box = one_row} (next {box = empty} start accept_hello) accept_again

claim_hello : Step 2 two_rows leased_box
claim_hello = claims {box = two_rows} 10 nobody "w1" 5 30 claim_outcome first_claim

pub reach_leased : Reach 2 leased_box
reach_leased = next {box = two_rows} reach_two claim_hello

answer_hello : Step 2 leased_box answered_box
unfolding runs
answer_hello = persists {box = leased_box} {after = answered_box} 15 1 "w1" "{hi}" "k" refl

reach_answered : Reach 2 answered_box
reach_answered = next {box = leased_box} reach_leased answer_hello

end_hello : Step 2 answered_box done_box
unfolding runs
end_hello = completes {box = answered_box} {after = done_box} 20 20 1 "w1" refl

reach_done : Reach 2 done_box
reach_done = next {box = answered_box} reach_answered end_hello

abbrev leased_again : Work
leased_again = record again {
  lease_owner = some "w2";
  lease_expires_at = some 60;
  attempt_count = 1;
}

claim_again : Step 2 done_box (record done_box { rows = done_hello ∷ leased_again ∷ [] })
unfolding runs
claim_again =
    claims {box = done_box} 30 nobody "w2" 5 30
      (record {
        claimed = leased_again ∷ [];
        terminalized = [];
        box = record done_box { rows = done_hello ∷ leased_again ∷ [] };
      })
      refl

abbrev failure : Failure
failure = record {
  error = "down";
  jitter = ratio 1 1;
  max_attempts = 2;
  retryable = true;
  failure_class = none;
  fallback = some ("{sorry}", "f");
}

one_lease_example :
    (leased_hello ≡ again)
    ⊎ ((is_none again.lease_expires_at ≡ true)
        × ((is_older_sibling again leased_hello ≡ true)
            ⊎ LeasedBefore 2 leased_box leased_hello again))
unfolding runs
one_lease_example =
    one_lease 2 leased_box leased_hello again reach_leased (inl refl) (refl, refl) (inr (inl refl))
      refl refl

-- the claimer's own reply stands between the claim and the reports
claim-fences_example :
    ((answered_hello.lease_expires_at ≡ none)
      ⊎ HoldsUntil 2 answered_box answered_hello 39 (10 + 30) "w1")
    × ((other : String) → (other ≡ "w1") ⊎ AreLost answered_box 39 1 other)
claim-fences_example =
    claim-fences 2 two_rows 10 nobody "w1" 5 30 claim_outcome leased_hello answered_box
      answered_hello 39 reach_two first_claim (inl refl)
      (onward {between = leased_box} (at_once leased_box) answer_hello) (inl refl) refl refl

-- A message whose transaction began first and is committed last, once a younger one is leased.
abbrev late_box : Outbox
late_box = record two_rows {
  inbox = again_in ∷ hello_in ∷ [];
  rows =
      record again { lease_owner = some "w1"; lease_expires_at = some 40; attempt_count = 1 }
      ∷ hello
      ∷ [];
}

-- Once the worker of the younger one has crashed, no claim is committed any more.
test_late_claim : claim_available_outbox_work 100 nobody "w2" 5 30 2 late_box ≡ err integrity_error
unfolding runs
test_late_claim = refl

in_order : IsInOrder two_rows.rows
unfolding runs
in_order w (inl e) held = absurd (ground (arith, ap (λ (x : Work). x.lease_expires_at) e, held.1))
in_order w (inr (inl e)) held =
    absurd (ground (arith, ap (λ (x : Work). x.lease_expires_at) e, held.1))
in_order w (inr (inr other)) held = absurd other

crashes_drain_example :
    All
      (λ r. is_terminal r ≡ true)
      (crash_rounds (all_left 2 two_rows.rows) 10 "w1" 1 30 2 two_rows).rows
unfolding is_terminal
crashes_drain_example =
    crashes_drain 10 1 30 2 "w1" two_rows (λ e. cc) (omega arith) (omega arith) reach_two in_order
      (λ r i. elim i [
        | inl e ↦ subst (λ x. Draining.IsRipe 10 x) e (inr (refl, refl))
        | inr (inl e) ↦ subst (λ x. Draining.IsRipe 10 x) e (inr (refl, refl))
        | inr (inr other) ↦ absurd other
      ])

step-Move_example :
    (w : Work) × IsIn w leased_box.rows × (w.id ≡ 1) × Move 2 (phase hello) (phase w)
step-Move_example = step-Move 2 two_rows leased_box hello reach_two claim_hello (inl refl)

terminal_stays_example : IsIn done_hello (done_hello ∷ leased_again ∷ [])
unfolding is_terminal
terminal_stays_example =
    terminal_stays 2 done_box (record done_box { rows = done_hello ∷ leased_again ∷ [] }) done_hello
      reach_done (onward {between = done_box} (at_once done_box) claim_again) (inl refl) refl

attempts_capped_example : leased_hello.attempt_count ≤ 2
attempts_capped_example = attempts_capped 2 leased_box leased_hello reach_leased (inl refl)

reply_kept_example : (w : Work) × IsIn w done_box.rows × (w.id ≡ 1) × IsAnswer "{hi}" "k" w
reply_kept_example =
    reply_kept 2 answered_box done_box answered_hello "{hi}" "k" reach_answered
      (onward {between = answered_box} (at_once answered_box) end_hello) (inl refl) (refl, refl)

abbrev waiting_hello : Work
waiting_hello = record leased_hello {
  lease_owner = none;
  lease_expires_at = none;
  last_error = some "down";
  available_at = 1000020;
}

abbrev retried : FailureOutcome
retried = record {
  terminal = false;
  alert_required = false;
  fallback_body = none;
  box = record two_rows { rows = waiting_hello ∷ again ∷ [] };
}

retry_hello : record_outbox_failure 20 20 1 "w1" failure leased_box ≡ ok retried
unfolding runs
retry_hello = refl

failure-outcome_example :
    (w : Work) × IsFound 1 "w1" 20 leased_box w
    × (((false ≡ true)
          × ((true ≡ false) ⊎ (2 ≤ w.attempt_count))
          × EndsRow 20 failure leased_box w retried)
        ⊎ ((false ≡ false)
            × ((true ≡ true) × (w.attempt_count < 2))
            × ((at : ℕ) × (20 ≤ at)
                × (at ≤ 20 + min (2 ^ w.attempt_count) 300 * 1000000)
                × (at ≤ 20 + 300000000)
                × (retried.box.rows
                    ≡ map
                        (at_id w.id (λ x. retry_row at (failure_row "down" x)))
                        leased_box.rows))))
failure-outcome_example = failure-outcome 20 20 1 "w1" failure leased_box retried retry_hello

accept-again_example :
    accept_inbound_message 17 11 9 "m1" "{}" "ana" "whatsapp" one_row
    ≡ ok (record { inbound_message_id = 7; duplicate = true; box = one_row })
unfolding runs
accept-again_example =
    accept-again 7 1 5 "m1" "{}" "ana" "whatsapp" empty
      (record { inbound_message_id = 7; duplicate = false; box = one_row }) 17 11 9 "{}" "ana" refl
      (λ e. cc)
