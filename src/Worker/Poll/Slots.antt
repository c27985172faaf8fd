-- ===== src/Worker/Poll/Slots.antt =====
-- The slots of the admission limiter in a poll of services/webhook_worker.py.
use agents_system.Prelude.{
  ℕ, zero, suc, ◌+◌, ◌-◌, ◌≤◌, ◌==◌, Bool, nat_eq, Option, String, List, [], ◌∷◌, leb, ok, ◌>>=◌,
  length, keep_if, ◌≡◌, refl, sym, subst, ap, ◌∙◌, inl, inr, arith, Bool-cases, Option-cases,
  Result-cases,
}
use agents_system.Admission.{Limiter, try_acquire, release}
use agents_system.Outbox.{Work, Outbox, is_pending, ordered, take, pending_outbox_work}
use agents_system.Outbox.Claim.{
  Request, ClaimOutcome, claim_rows, claim_one, claim_available_outbox_work,
}
use agents_system.Outbox.Changes.{claim_commits}
use agents_system.Outbox.Steps.{claims}
use agents_system.Outbox.Replies.{Later, at_once, onward, Later-trans}
use agents_system.Worker.{Exn, Worker, Answers}
use agents_system.Worker.Process.{process_claimed_work}
use agents_system.Worker.Transactions.{process-Later}
use agents_system.Worker.Poll.{
  reserve, release_times, process_all, Polled, give_back, serve_claim, claim_reserved,
  process_available,
}

-- The limiter with this many more turns in flight.
abbrev with_more : ℕ → Limiter → Limiter
with_more n l = record l { in_flight = l.in_flight + n }

-- A loop that reserves takes at most what it was asked for, and what is free.
reserve-taken :
    (n : ℕ) (l : Limiter)
    → l.in_flight ≤ l.max_concurrent_turns
    → ((reserve n l).0 ≤ n)
      × (l.in_flight + (reserve n l).0 ≤ l.max_concurrent_turns)
      × ((reserve n l).1 ≡ with_more (reserve n l).0 l)
unfolding reserve try_acquire
reserve-taken zero l h = (omega arith, omega arith, ground arith)
reserve-taken (suc n) l h = elim (Bool-cases (leb l.max_concurrent_turns l.in_flight)) [
  | inl full ↦ (ground arith, ground arith, ground arith)
  | inr free ↦
      let (le, room, same) = reserve-taken n (with_more 1 l) (ground arith) in
      (ground arith, ground arith, ground arith)
]

release_times-back : (n : ℕ) (l : Limiter) → release_times n (with_more n l) ≡ ok l
unfolding release_times release
release_times-back zero l = ground arith
release_times-back (suc n) l = ground (arith, release_times-back n l)

release_times-some :
    (k n : ℕ) (l : Limiter) → k ≤ n → release_times k (with_more n l) ≡ ok (with_more (n - k) l)
release_times-some k n l h =
    let split : with_more n l ≡ with_more k (with_more (n - k) l) = ground arith in
    subst (λ x. release_times k x ≡ ok (with_more (n - k) l)) (sym split)
      (release_times-back k (with_more (n - k) l))

take-length : (n : ℕ) (ws : List Work) → length (take n ws) ≤ n
unfolding take
take-length zero ws = omega arith
take-length (suc n) [] = omega arith
take-length (suc n) (w ∷ ws) = omega (arith, take-length n ws)

claimed-length :
    (req : Request) (ws : List Work) (box : Outbox)
    → length (claim_rows req ws box).claimed ≤ length ws
unfolding claim_rows
claimed-length req [] box = omega arith
claimed-length req (w ∷ ws) box =
    let rest = claimed-length req ws (claim_one req w box) in
    elim (Bool-cases (leb req.max_attempts w.attempt_count)) [
      | inl e ↦ ground arith
      | inr e ↦ ground arith
    ]

pending-length :
    (now limit : ℕ) (locked : ℕ → Bool) (rows : List Work)
    → length (pending_outbox_work now limit locked rows) ≤ limit
unfolding pending_outbox_work
pending-length now limit locked rows =
    take-length limit (ordered (keep_if (is_pending now locked rows) rows))

-- A claim returns at most as many rows as it was asked for.
claim-length :
    (now : ℕ) (locked : ℕ → Bool) (worker : String) (limit lease max : ℕ) (box : Outbox)
    (o : ClaimOutcome)
    → claim_available_outbox_work now locked worker limit lease max box ≡ ok o
    → length o.claimed ≤ limit
claim-length now locked worker limit lease max box o h =
    let (req, r, e) = claim_commits now locked worker limit lease max box o h in
    let picked = pending_outbox_work now limit locked box.rows in
    let le = claimed-length req picked box in
    let most = pending-length now limit locked box.rows in
    subst (λ (x : ClaimOutcome). length x.claimed ≤ limit) (sym e) (omega (arith, le, most))

process_all-Later :
    (d : Worker) (answers : ℕ → Answers) (ws : List Work) (box : Outbox) (max : ℕ)
    → Later max box (process_all d answers ws box).1
unfolding process_all
process_all-Later d answers [] box max = at_once box
process_all-Later d answers (w ∷ ws) box max =
    let after = (process_claimed_work d (answers w.id) w box).1 in
    Later-trans max box after _ (process-Later d (answers w.id) w box max)
      (process_all-Later d answers ws after max)

-- A poll that leaves the limiter as it was, having held one slot for each claimed row.
abbrev IsEven : Limiter → ℕ → ℕ → Outbox → Polled → Type 0
IsEven l limit max box p =
    (p.claimed ≤ limit)
    × (l.in_flight + p.claimed ≤ l.max_concurrent_turns)
    × (p.held ≡ ok (with_more p.claimed l))
    × (p.limiter ≡ ok l)
    × Later max box p.box

give_back-IsEven :
    (n limit max : ℕ) (l : Limiter) (box : Outbox)
    → l.in_flight ≤ l.max_concurrent_turns
    → IsEven l limit max box (give_back n (with_more n l) box)
unfolding give_back
give_back-IsEven n limit max l box h =
    let back = release_times-back n l in
    let zero_more : with_more 0 l ≡ l = ground arith in
    (omega arith, omega arith, (back ∙ ap ok (sym zero_more)), back, at_once box)

serve_claim-IsEven :
    (d : Worker) (answers : ℕ → Answers) (n limit max : ℕ) (l : Limiter) (box : Outbox)
    (o : ClaimOutcome)
    → length o.claimed ≤ n
    → n ≤ limit
    → l.in_flight + n ≤ l.max_concurrent_turns
    → Later max box o.box
    → IsEven l limit max box (serve_claim d answers n (with_more n l) o)
unfolding serve_claim
serve_claim-IsEven d answers n limit max l box o le cap room later =
    let k = length o.claimed in
    let rest : n - (n - k) ≡ k = omega (arith, le) in
    let held =
      subst (λ j. release_times (n - k) (with_more n l) ≡ ok (with_more j l)) rest
        (release_times-some (n - k) n l (omega arith)) in
    (
      omega arith,
      omega arith,
      held,
      (subst (λ r. r >>= release_times k ≡ ok l) (sym held) (release_times-back k l)),
      Later-trans max box o.box _ later (process_all-Later d answers o.claimed o.box max),
    )

claim_reserved-IsEven :
    (d : Worker) (answers : ℕ → Answers) (claim_error : Option Exn) (now : ℕ) (locked : ℕ → Bool)
    (lease max n limit : ℕ) (l : Limiter) (box : Outbox)
    → n ≤ limit
    → l.in_flight + n ≤ l.max_concurrent_turns
    → IsEven l limit max box
        (claim_reserved d answers claim_error now locked lease max n (with_more n l) box)
unfolding claim_reserved
claim_reserved-IsEven d answers claim_error now locked lease max n limit l box cap room =
    elim (Option-cases claim_error) [
      | inr (exn, e) ↦
          let eq : claim_reserved d answers claim_error now locked lease max n (with_more n l) box
              ≡ give_back n (with_more n l) box =
            ground arith in
          subst (IsEven l limit max box) (sym eq) (give_back-IsEven n limit max l box (omega arith))
      | inl e ↦
          elim (Result-cases (claim_available_outbox_work now locked d.worker_id n lease max box)) [
            | inr (exn, f) ↦
                let eq : claim_reserved d answers claim_error now locked lease max n (with_more n l)
                      box
                    ≡ give_back n (with_more n l) box =
                  ground arith in
                subst (IsEven l limit max box) (sym eq)
                  (give_back-IsEven n limit max l box (omega arith))
            | inl (o, f) ↦
                let eq : claim_reserved d answers claim_error now locked lease max n (with_more n l)
                      box
                    ≡ serve_claim d answers n (with_more n l) o =
                  ground arith in
                subst (IsEven l limit max box) (sym eq) (
                  serve_claim-IsEven d answers n limit max l box o
                    (claim-length now locked d.worker_id n lease max box o f) cap room
                    (onward {between = box} (at_once box)
                      (claims {box = box} now locked d.worker_id n lease o f)))
          ]
    ]

-- A poll reserves a slot for each row before it claims it, so it never runs more turns than are
-- free nor more than its limit, and leaves the limiter as it found it, whether the claim fails, finds
-- fewer rows than slots, or gives some up. All that it does to the tables is transactions of the
-- outbox.
pub process_available-IsEven :
    (d : Worker) (answers : ℕ → Answers) (claim_error : Option Exn) (now : ℕ) (locked : ℕ → Bool)
    (lease max limit : ℕ) (l : Limiter) (box : Outbox)
    → l.in_flight ≤ l.max_concurrent_turns
    → let p = process_available d answers claim_error now locked lease max limit l box in
      (p.claimed ≤ limit)
      × (l.in_flight + p.claimed ≤ l.max_concurrent_turns)
      × (p.held ≡ ok (record l { in_flight = l.in_flight + p.claimed }))
      × (p.limiter ≡ ok l)
      × Later max box p.box
unfolding process_available
process_available-IsEven d answers claim_error now locked lease max limit l box h =
    let (le, room, same) = reserve-taken limit l h in
    let p = process_available d answers claim_error now locked lease max limit l box in
    elim (Bool-cases ((reserve limit l).0 == 0)) [
      | inl empty ↦
          let eq : p ≡ record { claimed = 0; held = ok l; limiter = ok l; acts = []; box = box } =
            ground arith in
          subst (IsEven l limit max box) (sym eq)
            (omega arith, omega arith, (ground arith), refl, at_once box)
      | inr some_slot ↦
          let eq : p
              ≡ claim_reserved d answers claim_error now locked lease max (reserve limit l).0
                  (with_more (reserve limit l).0 l) box =
            ground arith in
          subst (IsEven l limit max box) (sym eq) (
            claim_reserved-IsEven d answers claim_error now locked lease max (reserve limit l).0
              limit l box le room)
    ]
