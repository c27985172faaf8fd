-- ===== src/Proactive/Queue/Laws.antt =====
-- The operations of the queue of proactive.py, and the messages that have a given id.
use agents_system.Prelude.{
  ℕ, ◌+◌, ◌≤◌, ◌==◌, false, Option, some, String, string_eq, nat_eq, List, [], ◌∷◌, ◌∙◌, ◌≡◌, refl,
  ap, arith, if◌then◌else◌, keep_if, count_if-append, All,
}
use agents_system.Proactive.Queue.{
  Status, Message, Queue, replace, enqueue, is_queued, is_expired, expire_each, expire_leases,
  is_due, earliest, find, lease_to, take, claim_due, claim, close, finish, requeue, defer,
}
use agents_system.Proactive.Queue.Counts.{
  total, waiting, total-replace, waiting-replace_closed, waiting-replace_open, total-expire_each,
  waiting-expire_each-le, total-find, earliest-All, due-waiting,
}

-- How the counts of two lists of messages compare when one message was taken to be sent.
pub record Taken (m : Message) (before after : List Message) : Type 0 where
  pub same_total : (i : ℕ) → total i after ≡ total i before
  pub fewer : (i : ℕ) → waiting i after ≤ waiting i before
  pub none_left : waiting m.id after ≡ 0
  pub was_waiting : 1 ≤ waiting m.id before

take-Taken :
    (worker_id : String) (now lease : ℕ) (chosen m : Message) (q q' : Queue)
    → 1 ≤ waiting chosen.id q.messages
    → take worker_id now lease chosen q ≡ (some m, q')
    → Taken m q.messages q'.messages
unfolding take
take-Taken worker_id now lease chosen m q q' w h =
    let change = lease_to worker_id (now + lease) in
    let found : find chosen.id (replace chosen.id change q.messages) ≡ some m =
      ap (λ (p : Option Message × Queue). p.0) h in
    let same : m.id ≡ chosen.id =
      total-find chosen.id (replace chosen.id change q.messages) m found in
    let after : replace chosen.id change q.messages ≡ q'.messages =
      ap (λ (p : Option Message × Queue). p.1.messages) h in
    rw (← after) (
      taken change (unfold lease_to in (λ x. refl)) (unfold lease_to is_queued in (λ x. refl)) same)
  where
    taken :
        (change : Message → Message)
        → ((x : Message) → (change x).id ≡ x.id)
        → ((x : Message) → is_queued (change x).status ≡ false)
        → m.id ≡ chosen.id
        → Taken m q.messages (replace chosen.id change q.messages)
    taken change keeps closed same = record {
      same_total = λ i. total-replace chosen.id change keeps i q.messages;
      fewer =
          λ i. ground (arith, waiting-replace_closed chosen.id change keeps closed i q.messages);
      none_left =
          ground (arith, waiting-replace_closed chosen.id change keeps closed m.id q.messages);
      was_waiting = rw same w;
    }

claim_due-Taken :
    (worker_id : String) (now lease : ℕ) (due : List Message) (m : Message) (q q' : Queue)
    → All (λ x. 1 ≤ waiting x.id q.messages) due
    → claim_due worker_id now lease due q ≡ (some m, q')
    → Taken m q.messages q'.messages
unfolding claim_due
claim_due-Taken worker_id now lease [] m q q' a h = absurd (ground arith)
claim_due-Taken worker_id now lease (x ∷ xs) m q q' (w, a) h =
    take-Taken worker_id now lease (earliest now x xs) m q q'
      (earliest-All (λ y. 1 ≤ waiting y.id q.messages) now x xs w a) h

-- A claim that returns a message takes one that waited, and leaves none waiting under its id; no
-- message appears or is lost, and none starts to wait.
pub claim-Taken :
    (worker_id : String) (now lease : ℕ) (m : Message) (q q' : Queue)
    → claim worker_id now lease q ≡ (some m, q')
    → Taken m q.messages q'.messages
unfolding claim expire_leases
claim-Taken worker_id now lease m q q' h = record {
  same_total = λ i. taken.same_total i ∙ total-expire_each i expired q.messages;
  fewer = λ i. omega (arith, taken.fewer i, waiting-expire_each-le i expired q.messages);
  none_left = taken.none_left;
  was_waiting = omega (arith, taken.was_waiting, waiting-expire_each-le m.id expired q.messages);
}
  where
    expired : List Message
    expired = keep_if (is_expired now) q.messages

    lapsed : Queue
    lapsed = record q { messages = expire_each expired q.messages }

    taken : Taken m lapsed.messages q'.messages
    taken =
        claim_due-Taken worker_id now lease (keep_if (is_due now) lapsed.messages) m lapsed q'
          (due-waiting now lapsed.messages lapsed.messages (λ p. omega arith)) h

claim_due-counts :
    (worker_id : String) (now lease : ℕ) (due : List Message) (q : Queue) (i : ℕ)
    → (total i (claim_due worker_id now lease due q).1.messages ≡ total i q.messages)
      × (waiting i (claim_due worker_id now lease due q).1.messages ≤ waiting i q.messages)
unfolding claim_due take
claim_due-counts worker_id now lease [] q i = (refl, omega arith)
claim_due-counts worker_id now lease (x ∷ xs) q i =
    let id = (earliest now x xs).id in
    let change = lease_to worker_id (now + lease) in
    (
      total-replace id change (unfold lease_to in (λ m. refl)) i q.messages,
      ground (
        arith,
        waiting-replace_closed id change (unfold lease_to in (λ m. refl))
            (unfold lease_to is_queued in (λ m. refl)) i q.messages,
      ),
    )

-- Whatever a claim returns, no message appears or is lost, and none starts to wait.
pub claim-counts :
    (worker_id : String) (now lease : ℕ) (q : Queue) (i : ℕ)
    → (total i (claim worker_id now lease q).1.messages ≡ total i q.messages)
      × (waiting i (claim worker_id now lease q).1.messages ≤ waiting i q.messages)
unfolding claim expire_leases
claim-counts worker_id now lease q i =
    let expired = keep_if (is_expired now) q.messages in
    let lapsed : Queue = record q { messages = expire_each expired q.messages } in
    let (same, fewer) =
      claim_due-counts worker_id now lease (keep_if (is_due now) lapsed.messages) lapsed i in
    (
      same ∙ total-expire_each i expired q.messages,
      omega (arith, waiting-expire_each-le i expired q.messages),
    )

-- `finish` leaves nothing waiting under the id, `defer` makes every message under it wait, and
-- neither touches the messages under another id.
pub finish-counts :
    (id : ℕ) (status : Status) (error : Option String) (q : Queue) (i : ℕ)
    → is_queued status ≡ false
    → (total i (finish id status error q).messages ≡ total i q.messages)
      × (waiting i (finish id status error q).messages
          ≡ (if i == id then 0 else waiting i q.messages))
unfolding finish close
finish-counts id status error q i closed = (
  total-replace id (close status error) (λ m. refl) i q.messages,
  waiting-replace_closed id (close status error) (λ m. refl) (λ m. closed) i q.messages,
)

pub defer-counts :
    (id until : ℕ) (q : Queue) (i : ℕ)
    → (total i (defer id until q).messages ≡ total i q.messages)
      × (waiting i (defer id until q).messages
          ≡ (if i == id then total i q.messages else waiting i q.messages))
unfolding defer requeue is_queued
defer-counts id until q i = (
  total-replace id (requeue until) (λ m. refl) i q.messages,
  waiting-replace_open id (requeue until) (λ m. refl) (λ m. refl) i q.messages,
)

pub enqueue-counts :
    (id : ℕ) (runtime_id subject_key text actor : String) (at : ℕ) (q : Queue) (i : ℕ)
    → (total i (enqueue id runtime_id subject_key text actor at q).messages
        ≡ (if i == id then total i q.messages + 1 else total i q.messages))
      × (waiting i (enqueue id runtime_id subject_key text actor at q).messages
          ≡ (if i == id then waiting i q.messages + 1 else waiting i q.messages))
unfolding enqueue is_queued
enqueue-counts id runtime_id subject_key text actor at q i =
    (rw count_if-append (ground arith), rw count_if-append (ground arith))

-- `expire_leases` marks messages and moves none of them to the waiting ones.
pub expire_leases-counts :
    (now : ℕ) (q : Queue) (i : ℕ)
    → (total i (expire_leases now q).1.messages ≡ total i q.messages)
      × (waiting i (expire_leases now q).1.messages ≤ waiting i q.messages)
unfolding expire_leases
expire_leases-counts now q i =
    let expired = keep_if (is_expired now) q.messages in
    (total-expire_each i expired q.messages, waiting-expire_each-le i expired q.messages)
