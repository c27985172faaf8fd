-- ===== src/Outbox/Lifecycle.antt =====
-- The life of a row of services/outbox.py, against a diagram of it.
use agents_system.Prelude.{
  ℕ, ◌+◌, ◌<◌, ◌≤◌, true, false, not, none, some, Option, String, if◌then◌else◌, is_none, leb, ◌≡◌,
  sym, subst, inl, inr, arith, Bool-cases, string_eq, nat_eq,
}
use agents_system.Outbox.{Work, Outbox, is_terminal}
use agents_system.Outbox.Claim.{Request, claim_row, lease_row, terminal_row}
use agents_system.Outbox.Settle.{
  is_live, intent_row, complete_row, retry_row, failure_row, reply_row, fallback_of,
}
use agents_system.Outbox.Rows.{IsIn}
use agents_system.Outbox.Steps.{Step, Reach}
use agents_system.Outbox.Changes.{Report, replies, ends, retries, gives_up}
use agents_system.Outbox.Fates.{Fate, stayed, taken, told, step-Fate, Fate-id}

-- The life of a message: it waits, is held by a worker, is answered or is given up. The number is
-- that of the attempts made.
pub data Phase : Type 0 where
  waiting : (attempts : ℕ) → Phase
  held : (worker : String) (attempts : ℕ) → Phase
  answered abandoned : Phase

-- The moves of the diagram.
pub data Move (max : ℕ) : Phase → Phase → Type 0 where
  rests : (p : Phase) → Move max p p
  takes : (n : ℕ) (worker : String) → n < max → Move max (waiting n) (held worker (n + 1))
  retakes :
      (n : ℕ) (crashed worker : String) → n < max → Move max (held crashed n) (held worker (n + 1))
  runs_out : (n : ℕ) → max ≤ n → Move max (waiting n) abandoned
  loses : (n : ℕ) (crashed : String) → max ≤ n → Move max (held crashed n) abandoned
  answers : (n : ℕ) (worker : String) → Move max (held worker n) answered
  retries_later : (n : ℕ) (worker : String) → Move max (held worker n) (waiting n)
  gives_up_on : (n : ℕ) (worker : String) → Move max (held worker n) abandoned

abbrev pub open_phase : Option String → ℕ → Phase
open_phase none n = waiting n
open_phase (some worker) n = held worker n

-- The phase that a row stands for.
unfoldable pub phase : Work → Phase
phase w =
    if not (is_none w.completed_at)
    then answered
    else if not (is_none w.failed_at)
    then abandoned
    else open_phase w.lease_owner w.attempt_count

phase-open : (w : Work) → is_terminal w ≡ false → phase w ≡ open_phase w.lease_owner w.attempt_count
unfolding phase is_terminal
phase-open w live = ground arith

take_move :
    (max : ℕ) (owner : Option String) (worker : String) (n : ℕ)
    → n < max
    → Move max (open_phase owner n) (held worker (n + 1))
take_move max none worker n h = takes n worker h
take_move max (some crashed) worker n h = retakes n crashed worker h

end_move :
    (max : ℕ) (owner : Option String) (n : ℕ) → max ≤ n → Move max (open_phase owner n) abandoned
end_move max none n h = runs_out n h
end_move max (some crashed) n h = loses n crashed h

claim-Move :
    (req : Request) (w : Work)
    → is_terminal w ≡ false
    → Move req.max_attempts (phase w) (phase (claim_row req w w))
unfolding claim_row lease_row terminal_row phase is_terminal
claim-Move req w live = elim (Bool-cases (leb req.max_attempts w.attempt_count)) [
  | inl e ↦
      let after : phase (claim_row req w w) ≡ abandoned = ground arith in
      subst (Move req.max_attempts (phase w)) (sym after) (
        subst (λ p. Move req.max_attempts p abandoned) (sym (phase-open w live))
          (end_move req.max_attempts w.lease_owner w.attempt_count (ground arith)))
  | inr e ↦
      let after : phase (claim_row req w w) ≡ held req.worker_id (w.attempt_count + 1) =
        ground arith in
      subst (Move req.max_attempts (phase w)) (sym after) (
        subst (λ p. Move req.max_attempts p (held req.worker_id (w.attempt_count + 1)))
          (sym (phase-open w live))
          (take_move req.max_attempts w.lease_owner req.worker_id w.attempt_count (ground arith)))
]

-- A row with a live lease is held by the worker.
live-phase :
    (id : ℕ) (worker : String) (clock : ℕ) (w : Work)
    → is_live id worker clock w ≡ true
    → (phase w ≡ held worker w.attempt_count)
      × (is_terminal w ≡ false)
      × (w.lease_owner ≡ some worker)
unfolding is_live is_terminal phase
live-phase id worker clock w live = ground arith

reply_phase :
    (max : ℕ) (now : ℕ) (error : String) (reply : Option (String × String)) (w : Work)
    → is_terminal w ≡ false
    → phase (terminal_row now error (reply_row reply (failure_row error w))) ≡ abandoned
unfolding phase is_terminal terminal_row reply_row failure_row intent_row
reply_phase max now error none w live = ground arith
reply_phase max now error (some (body, key)) w live = ground arith

report-Move :
    (max id : ℕ) (worker : String) (clock : ℕ) (w : Work) (change : Work → Work)
    → is_live id worker clock w ≡ true
    → Report w change
    → Move max (phase w) (phase (change w))
unfolding intent_row complete_row retry_row failure_row phase is_terminal
report-Move max id worker clock w change live (replies body key _ _) = rests (phase w)
report-Move max id worker clock w change live (ends now) =
    let (at, open', owner) = live-phase id worker clock w live in
    subst (λ p. Move max p answered) (sym at) (answers w.attempt_count worker)
report-Move max id worker clock w change live (retries at error) =
    let (here, live', owner) = live-phase id worker clock w live in
    let after : phase (retry_row at (failure_row error w)) ≡ waiting w.attempt_count =
      ground arith in
    subst (Move max (phase w)) (sym after) (
      subst (λ p. Move max p (waiting w.attempt_count)) (sym here)
        (retries_later w.attempt_count worker))
report-Move max id worker clock w change live (gives_up now error fallback) =
    let (here, live', owner) = live-phase id worker clock w live in
    let after = reply_phase max now error (fallback_of fallback w.outbound_body) w live' in
    subst (Move max (phase w)) (sym after)
      (subst (λ p. Move max p abandoned) (sym here) (gives_up_on w.attempt_count worker))

-- Every transaction refines the diagram: each row of the table is still there after it, under its
-- id, and its phase has rested or made one move of the diagram.
pub step-Move :
    (max : ℕ) (box after : Outbox) (w : Work)
    → Reach max box
    → Step max box after
    → IsIn w box.rows
    → (w' : Work) × IsIn w' after.rows × (w'.id ≡ w.id) × Move max (phase w) (phase w')
step-Move max box after w r s m =
    let (w', m', f) = step-Fate max box after w r s m in (w', m', Fate-id max w w' f, move w' f)
  where
    move : (w' : Work) → Fate max w w' → Move max (phase w) (phase w')
    move w' (stayed e) = subst (λ x. Move max (phase w) (phase x)) (sym e) (rests (phase w))
    move w' (taken req n live e) =
        subst (λ x. Move max (phase w) (phase x)) (sym e)
          (subst (λ k. Move k (phase w) (phase (claim_row req w w))) n (claim-Move req w live))
    move w' (told id worker clock change live r e) =
        subst (λ x. Move max (phase w) (phase x)) (sym e)
          (report-Move max id worker clock w change live r)
