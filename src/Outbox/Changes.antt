-- ===== src/Outbox/Changes.antt =====
-- The rows that each transaction of services/outbox.py leaves, as a function of those it found.
use agents_system.Prelude.{
  ℕ, ◌+◌, ◌==◌, Bool, true, false, not, ◌||◌, none, some, Option, String, string_eq, nat_eq, List,
  [], ◌∷◌, map, if◌then◌else◌, leb, ◌≡◌, refl, ap, sym, ◌∙◌, subst, inl, inr, arith, Bool-cases,
  Option-cases, Result, ok, ◌>>=◌,
}
use agents_system.Outbox.{Work, Outbox, OutboxError, pending_outbox_work}
use agents_system.Outbox.Claim.{
  update_row, terminal_row, terminalize_work, Request, claim_rows, ClaimOutcome, has_two_leases,
  claim_available_outbox_work,
}
use agents_system.Outbox.Settle.{
  conflicts, is_unit, is_live, find_live, locked_live_work, intent_row, persist_on,
  persist_outbound_intent, complete_row, complete_outbox_work, Failure, FailureOutcome, reply_row,
  failure_row, retry_row, fallback_of, fail_terminally, fail_for_now, fail_on,
  record_outbox_failure, retry_delay,
}
use agents_system.Outbox.Rows.{IsIn}

-- A claim that commits was asked by a worker with a name, for some rows, with a lease; its rows are
-- those that its selection and its loop leave.
pub claim_commits :
    (now : ℕ) (locked : ℕ → Bool) (worker : String) (limit lease max : ℕ) (box : Outbox)
    (o : ClaimOutcome)
    → claim_available_outbox_work now locked worker limit lease max box ≡ ok o
    → (req : Request) × (req
        ≡ record { now = now; worker_id = worker; until = now + lease; max_attempts = max })
      × (o ≡ claim_rows req (pending_outbox_work now limit locked box.rows) box)
unfolding claim_available_outbox_work
claim_commits now locked worker limit lease max box o h =
    elim (Bool-cases (has_two_leases (claim_rows req picked box).box.rows)) [
      | inl two ↦ absurd (ground arith)
      | inr one ↦ (req, refl, ground arith)
    ]
  where
    req : Request
    req = record { now = now; worker_id = worker; until = now + lease; max_attempts = max }

    picked : List Work
    picked = pending_outbox_work now limit locked box.rows

-- The index of live leases holds after a claim that commits.
pub claim-has_two_leases :
    (now : ℕ) (locked : ℕ → Bool) (worker : String) (limit lease max : ℕ) (box : Outbox)
    (o : ClaimOutcome)
    → claim_available_outbox_work now locked worker limit lease max box ≡ ok o
    → has_two_leases o.box.rows ≡ false
unfolding claim_available_outbox_work
claim-has_two_leases now locked worker limit lease max box o h =
    elim (Bool-cases (has_two_leases (claim_rows req picked box).box.rows)) [
      | inl two ↦ absurd (ground arith)
      | inr one ↦
          let same : claim_rows req picked box ≡ o = ground arith in
          subst (λ (x : ClaimOutcome). has_two_leases x.box.rows ≡ false) same one
    ]
  where
    req : Request
    req = record { now = now; worker_id = worker; until = now + lease; max_attempts = max }

    picked : List Work
    picked = pending_outbox_work now limit locked box.rows

-- A change of the rows with this id.
abbrev pub at_id : ℕ → (Work → Work) → Work → Work
at_id id change row = if row.id == id then change row else row

pub find_live-some :
    (id : ℕ) (worker : String) (clock : ℕ) (rows : List Work) (w : Work)
    → find_live id worker clock rows ≡ some w
    → IsIn w rows × (is_live id worker clock w ≡ true)
unfolding find_live
find_live-some id worker clock [] w h = absurd (ground arith)
find_live-some id worker clock (r ∷ rows) w h = elim (Bool-cases (is_live id worker clock r)) [
  | inl e ↦
      let same : r ≡ w = ground arith in
      (inl same, subst (λ x. is_live id worker clock x ≡ true) same e)
  | inr e ↦ let (m, l) = find_live-some id worker clock rows w (ground arith) in (inr m, l)
]

-- The row that a transaction of a worker found: its own, with a live lease.
abbrev pub IsFound : ℕ → String → ℕ → Outbox → Work → Type 0
IsFound id worker clock box w = IsIn w box.rows × (is_live id worker clock w ≡ true)

-- A transaction that goes on from `_locked_live_work` found its row.
locked_commits {ℓ} :
    {A : Type ℓ} (id : ℕ) (worker : String) (clock : ℕ) (box : Outbox)
    (k : Work → Result OutboxError A) (a : A)
    → locked_live_work id worker clock box >>= k ≡ ok a
    → (w : Work) × IsFound id worker clock box w × (k w ≡ ok a)
unfolding locked_live_work
locked_commits id worker clock box k a h =
    elim (Option-cases (find_live id worker clock box.rows)) [
      | inl e ↦ absurd (ground arith)
      | inr (w, e) ↦ (w, find_live-some id worker clock box.rows w e, ground arith)
    ]

pub persist_commits :
    (clock id : ℕ) (worker body key : String) (box after : Outbox)
    → persist_outbound_intent clock id worker body key box ≡ ok after
    → (w : Work) × IsFound id worker clock box w × (persist_on body key box w ≡ ok after)
unfolding persist_outbound_intent
persist_commits clock id worker body key box after h = elim (Bool-cases (key == "")) [
  | inl e ↦ absurd (ground arith)
  | inr e ↦ locked_commits id worker clock box (persist_on body key box) after (ground arith)
]

pub complete_commits :
    (now clock id : ℕ) (worker : String) (box after : Outbox)
    → complete_outbox_work now clock id worker box ≡ ok after
    → (w : Work) × IsFound id worker clock box w
      × (after ≡ record box { rows = map (at_id w.id (complete_row now)) box.rows })
unfolding complete_outbox_work update_row
complete_commits now clock id worker box after h =
    let (w, found, e) = locked_commits id worker clock box _ after h in (w, found, ground arith)

pub failure_commits :
    (now clock id : ℕ) (worker : String) (failure : Failure) (box : Outbox) (o : FailureOutcome)
    → record_outbox_failure now clock id worker failure box ≡ ok o
    → (w : Work) × IsFound id worker clock box w × (fail_on now failure box w ≡ ok o)
unfolding record_outbox_failure
failure_commits now clock id worker failure box o h =
    locked_commits id worker clock box (fail_on now failure box) o h

-- What a report writes of the row `w` that it found: a reply that no other one stands against, the
-- end of the row, a retry, or a terminal failure.
pub data Report (w : Work) : (Work → Work) → Type 0 where
  replies :
      (body key : String)
      → conflicts key w.outbound_send_key ≡ false
      → conflicts body w.outbound_body ≡ false
      → Report w (intent_row body key)
  ends : (now : ℕ) → Report w (complete_row now)
  retries : (at : ℕ) (error : String) → Report w (λ x. retry_row at (failure_row error x))
  gives_up :
      (now : ℕ) (error : String) (fallback : Option (String × String))
      → Report w (λ x.
        terminal_row now error
          (reply_row (fallback_of fallback w.outbound_body) (failure_row error x)))

update_twice :
    (id : ℕ) (f g : Work → Work) (rows : List Work)
    → ((w : Work) → (f w).id ≡ w.id)
    → map (at_id id g) (map (at_id id f) rows) ≡ map (at_id id (λ w. g (f w))) rows
update_twice id f g [] k = refl
update_twice id f g (r ∷ rows) k =
    let here : at_id id g (at_id id f r) ≡ at_id id (λ w. g (f w)) r =
      elim (Bool-cases (r.id == id)) [
        | inl e ↦ ground (arith, k r)
        | inr e ↦ ground (arith, k r)
      ] in
    ground (arith, here, update_twice id f g rows k)

reply_row-id : (reply : Option (String × String)) (w : Work) → (reply_row reply w).id ≡ w.id
unfolding reply_row intent_row
reply_row-id none w = refl
reply_row-id (some (body, key)) w = refl

pub fail_terminally-rows :
    (now : ℕ) (failure : Failure) (w : Work) (box : Outbox)
    → (fail_terminally now failure w box).box.rows
      ≡ map
          (at_id w.id (λ x. terminal_row now failure.error (
            reply_row
              (fallback_of failure.fallback w.outbound_body)
              (failure_row failure.error x))))
          box.rows
unfolding fail_terminally terminalize_work update_row failure_row
fail_terminally-rows now failure w box =
    let reply = fallback_of failure.fallback w.outbound_body in
    update_twice w.id (λ w. reply_row reply (failure_row failure.error w))
      (terminal_row now failure.error) box.rows
      (λ w. reply_row-id reply (failure_row failure.error w))

terminal_rows :
    (now : ℕ) (failure : Failure) (w : Work) (box : Outbox)
    → (change : Work → Work) × Report w change
      × ((fail_terminally now failure w box).box.rows ≡ map (at_id w.id change) box.rows)
terminal_rows now failure w box =
    (_, gives_up now failure.error failure.fallback, fail_terminally-rows now failure w box)

pub fail_on-rows :
    (now : ℕ) (failure : Failure) (box : Outbox) (w : Work) (o : FailureOutcome)
    → fail_on now failure box w ≡ ok o
    → (change : Work → Work) × Report w change × (o.box.rows ≡ map (at_id w.id change) box.rows)
unfolding fail_on fail_for_now update_row
fail_on-rows now failure box w o h =
    elim (Bool-cases (not failure.retryable || leb failure.max_attempts w.attempt_count)) [
      | inl e ↦
          let same : fail_terminally now failure w box ≡ o = ground arith in
          let (change, r, rows) = terminal_rows now failure w box in
          (change, r, ap (λ (x : FailureOutcome). x.box.rows) (sym same) ∙ rows)
      | inr e ↦ elim (Bool-cases (is_unit failure.jitter)) [
        | inl u ↦ (
          _,
          retries (now + retry_delay w.attempt_count failure.jitter) failure.error,
          ground arith,
        )
        | inr u ↦ absurd (ground arith)
      ]
    ]

pub persist_on-rows :
    (body key : String) (box after : Outbox) (w : Work)
    → persist_on body key box w ≡ ok after
    → (after ≡ record box { rows = map (at_id w.id (intent_row body key)) box.rows })
      × (conflicts key w.outbound_send_key ≡ false)
      × (conflicts body w.outbound_body ≡ false)
unfolding persist_on update_row
persist_on-rows body key box after w h = ground arith
