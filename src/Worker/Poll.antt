-- ===== src/Worker/Poll.antt =====
-- `process_available` of services/webhook_worker.py, over the outbox and the admission limiter. The
-- rows of one claim, which `gather` runs side by side, are processed one after another.
pub mod Slots
use agents_system.Prelude.{
  ℕ, zero, suc, ◌+◌, ◌-◌, ◌==◌, Bool, true, false, nat_eq, Option, none, some, String, List, [],
  ◌∷◌, ◌++◌, if◌then◌else◌, Result, ok, err, ◌>>=◌, length,
}
use agents_system.Admission.{Limiter, LimiterError, try_acquire, release}
use agents_system.Outbox.{Work, Outbox, OutboxError}
use agents_system.Outbox.Claim.{ClaimOutcome, exhausted_error, claim_available_outbox_work}
use agents_system.Worker.{Exn, Worker, Answers, Act, Done}
use agents_system.Worker.Failures.{notify_terminal_failure}
use agents_system.Worker.Process.{process_claimed_work}

-- `while reserved < limit and self._admission_limiter.try_acquire()`, on what is left of the limit
unfoldable pub reserve : ℕ → Limiter → ℕ × Limiter
unfolding try_acquire
reserve zero l = (0, l)
reserve (suc n) l =
    let rest = reserve n (try_acquire l).1 in
    if (try_acquire l).0 then (suc rest.0, rest.1) else (0, (try_acquire l).1)

-- `for _ in range(n): await self._admission_limiter.release()`
unfoldable pub release_times : ℕ → Limiter → Result LimiterError Limiter
unfolding release
release_times zero l = ok l
release_times (suc n) l = release l >>= release_times n

-- the notices of the rows that the claim terminalized
unfoldable pub notify_all : Worker → List Work → List Act
unfolding notify_terminal_failure exhausted_error
notify_all d [] = []
notify_all d (w ∷ ws) = notify_terminal_failure d (exhausted_error w.last_error) ++ notify_all d ws

-- `_process_claimed_work_admitted` of each claimed row
unfoldable pub process_all : Worker → (ℕ → Answers) → List Work → Outbox → Done
unfolding process_claimed_work
process_all d answers [] box = ([], box)
process_all d answers (w ∷ ws) box =
    let (acts, after) = process_claimed_work d (answers w.id) w box in
    let (more, last) = process_all d answers ws after in (acts ++ more, last)

-- What a poll did: the rows it claimed, the limiter while they are processed and after it, the acts and
-- the tables.
pub record Polled : Type 0 where
  pub claimed : ℕ
  pub held : Result LimiterError Limiter
  pub limiter : Result LimiterError Limiter
  pub acts : List Act
  pub box : Outbox

-- the claim failed: every slot is released
unfoldable pub give_back : ℕ → Limiter → Outbox → Polled
unfolding release_times
give_back reserved l box = record {
  claimed = 0;
  held = release_times reserved l;
  limiter = release_times reserved l;
  acts = [];
  box = box;
}

-- the slots without a row are released, the rows are processed, and each releases its own
unfoldable pub serve_claim : Worker → (ℕ → Answers) → ℕ → Limiter → ClaimOutcome → Polled
unfolding release_times notify_all process_all
serve_claim d answers reserved l o =
    let held = release_times (reserved - length o.claimed) l in
    let (acts, after) = process_all d answers o.claimed o.box in
    record {
      claimed = length o.claimed;
      held = held;
      limiter = held >>= release_times (length o.claimed);
      acts = notify_all d o.terminalized ++ acts;
      box = after;
    }

-- the claim, with as many rows as slots were reserved
unfoldable pub claim_reserved :
    Worker
    → (ℕ → Answers)
    → Option Exn
    → (now : ℕ) → (ℕ → Bool)
    → (lease max reserved : ℕ) → Limiter
    → Outbox
    → Polled
unfolding give_back serve_claim
claim_reserved d answers claim_error now locked lease max reserved l box = elim claim_error [
  | some exn ↦ give_back reserved l box
  | none ↦ elim (claim_available_outbox_work now locked d.worker_id reserved lease max box) [
    | err e ↦ give_back reserved l box
    | ok o ↦ serve_claim d answers reserved l o
  ]
]

-- `process_available`
unfoldable pub process_available :
    Worker
    → (ℕ → Answers)
    → Option Exn
    → (now : ℕ) → (ℕ → Bool)
    → (lease max limit : ℕ) → Limiter
    → Outbox
    → Polled
unfolding reserve claim_reserved
process_available d answers claim_error now locked lease max limit l box =
    let reserved = reserve limit l in
    if reserved.0 == 0
    then record { claimed = 0; held = ok reserved.1; limiter = ok reserved.1; acts = []; box = box }
    else claim_reserved d answers claim_error now locked lease max reserved.0 reserved.1 box
