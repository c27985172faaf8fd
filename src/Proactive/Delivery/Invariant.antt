-- ===== src/Proactive/Delivery/Invariant.antt =====
-- The provider calls for a message, over the steps of the workers of proactive.py.
use agents_system.Prelude.{
  ℕ, ◌+◌, ◌≤◌, ◌==◌, Bool, true, false, ◌&&◌, not, Option, none, some, nat_eq, List, ◌∷◌, ◌++◌, ap,
  ◌≡◌, refl, arith, count_if, count_if-append, count_if-le, if◌then◌else◌,
}
use agents_system.Proactive.Queue.{sent, failed, ambiguous, Message, Queue, claim, is_queued}
use agents_system.Proactive.Queue.Counts.{total, waiting}
use agents_system.Proactive.Queue.Laws.{
  claim-Taken, claim-counts, finish-counts, defer-counts, enqueue-counts, expire_leases-counts,
}
use agents_system.Proactive.Dispatch.{
  Verdict, refuse, hold, go, Answer, accepted, rejected, unknown, rate_limited, settle, end_unsent,
  failing_text,
}
use agents_system.Proactive.Delivery.{
  Flight, Call, World, start, Dispatcher, Step, submitted, lapsed, idle, claimed, refused, held,
  called, settled, died, Reach, here, next,
}

-- Anything but a 429: the provider may have the message, or will never take it.
unfoldable pub is_final : Answer → Bool
is_final (rate_limited _) = false
is_final _ = true

-- A flight that may still put its message back into the queue.
unfoldable pub is_live : Option Answer → Bool
unfolding is_final
is_live none = true
is_live (some a) = not (is_final a)

abbrev pub live : ℕ → List Flight → ℕ
live i = count_if (λ f. f.message.id == i && is_live f.answer)

abbrev pub final_calls : ℕ → List Call → ℕ
final_calls i = count_if (λ c. c.id == i && is_final c.answer)

-- Every id has at most one message; and a message waits, or is in one flight that may put it back,
-- or has had its one final call, and never two of these.
abbrev pub IsBalanced : World → Type 0
IsBalanced w =
    (i : ℕ)
    → (total i w.queue.messages ≤ 1)
      × (waiting i w.queue.messages + live i w.flights + final_calls i w.calls
          ≤ total i w.queue.messages)

live-append : (i : ℕ) (xs ys : List Flight) → live i (xs ++ ys) ≡ live i xs + live i ys
live-append i xs ys = count_if-append (λ f. f.message.id == i && is_live f.answer) xs ys

end_unsent-counts :
    (m : Message) (v : Verdict) (q : Queue) (i : ℕ)
    → (total i (end_unsent m v q).messages ≡ total i q.messages)
      × (waiting i (end_unsent m v q).messages
          ≤ (if i == m.id then total i q.messages else waiting i q.messages))
unfolding end_unsent is_queued
end_unsent-counts m (refuse reason) q i =
    ground (arith, finish-counts m.id failed (some (failing_text reason)) q i refl)
end_unsent-counts m (hold until reason) q i = ground (arith, defer-counts m.id until q i)
end_unsent-counts m (go channel address) q i = ground (
  arith,
  count_if-le {A = Message} (λ x. x.id == i && is_queued x.status) (λ x. x.id == i) q.messages
      (λ x h. ground arith),
)

settle-counts :
    (m : Message) (now : ℕ) (a : Answer) (q : Queue) (i : ℕ)
    → (total i (settle m now a q).messages ≡ total i q.messages)
      × (waiting i (settle m now a q).messages
          ≤ (if i == m.id && not (is_final a) then total i q.messages else waiting i q.messages))
unfolding settle is_queued is_final
settle-counts m now accepted q i = ground (arith, finish-counts m.id sent none q i refl)
settle-counts m now rejected q i =
    ground (arith, finish-counts m.id failed (some "rejected") q i refl)
settle-counts m now unknown q i =
    ground (arith, finish-counts m.id ambiguous (some "send_error") q i refl)
settle-counts m now (rate_limited retry) q i = ground (arith, defer-counts m.id (now + retry) q i)

Step-IsBalanced : {d : Dispatcher} {w v : World} → Step d w v → IsBalanced w → IsBalanced v
unfolding is_live
Step-IsBalanced (submitted w id rt key text actor at fresh) h =
    λ i. ground (arith, h i, h id, enqueue-counts id rt key text actor at w.queue i)
Step-IsBalanced (lapsed w now) h = λ i. ground (arith, h i, expire_leases-counts now w.queue i)
Step-IsBalanced (idle w worker now lease e) h =
    λ i. ground (arith, h i, claim-counts worker now lease w.queue i)
Step-IsBalanced (claimed w worker now lease m e) h = λ i.
    let q' = (claim worker now lease w.queue).1 in
    let t = claim-Taken worker now lease m w.queue q' (λ j. (e j, q')) in
    ground (arith, h i, h m.id, t.same_total i, t.fewer i, t.none_left, t.was_waiting)
Step-IsBalanced (refused w before after m lookup directory now reason e _) h = λ i. ground (
  arith,
  h i,
  ap (live i) e,
  live-append i before (record { message = m; answer = none } ∷ after),
  live-append i before after,
  end_unsent-counts m (refuse reason) w.queue i,
)
Step-IsBalanced (held w before after m lookup directory now until reason e _) h = λ i. ground (
  arith,
  h i,
  ap (live i) e,
  live-append i before (record { message = m; answer = none } ∷ after),
  live-append i before after,
  end_unsent-counts m (hold until reason) w.queue i,
)
Step-IsBalanced (called w before after m lookup directory now channel address a e _) h = λ i.
    ground (
      arith,
      h i,
      ap (live i) e,
      live-append i before (record { message = m; answer = none } ∷ after),
      live-append i before (record { message = m; answer = some a } ∷ after),
    )
Step-IsBalanced (settled w before after m a now e) h = λ i. ground (
  arith,
  h i,
  ap (live i) e,
  live-append i before (record { message = m; answer = some a } ∷ after),
  live-append i before after,
  settle-counts m now a w.queue i,
)
Step-IsBalanced (died w before after f e) h = λ i.
    ground (arith, h i, ap (live i) e, live-append i before (f ∷ after), live-append i before after)

Reach-IsBalanced : {d : Dispatcher} {w v : World} → IsBalanced w → Reach d w v → IsBalanced v
Reach-IsBalanced h here = h
Reach-IsBalanced h (next r s) = Step-IsBalanced s (Reach-IsBalanced h r)

start-IsBalanced : IsBalanced start
start-IsBalanced i = (omega arith, omega arith)

-- However the workers interleave, die and are answered, at most one provider call for a message
-- ends in anything but a 429, and once there is one the message never waits again.
pub at_most_once :
    (d : Dispatcher) (w : World) (i : ℕ)
    → Reach d start w
    → (final_calls i w.calls ≤ 1) × (final_calls i w.calls ≡ 1 → waiting i w.queue.messages ≡ 0)
at_most_once d w i r = omega (arith, Reach-IsBalanced start-IsBalanced r i)
