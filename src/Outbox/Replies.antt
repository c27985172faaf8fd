-- ===== src/Outbox/Replies.antt =====
-- What later transactions of services/outbox.py never undo: an end, a limit, a reply.
use agents_system.Prelude.{
  ℕ, ◌≤◌, true, false, none, some, Option, String, ◌≡◌, refl, ◌∙◌, subst, inl, inr, arith,
  string_eq, nat_eq,
}
use agents_system.Outbox.{Work, Outbox, is_terminal}
use agents_system.Outbox.Claim.{claim_row, lease_row, terminal_row}
use agents_system.Outbox.Settle.{
  is_live, conflicts, intent_row, complete_row, retry_row, failure_row, reply_row, fallback_of,
}
use agents_system.Outbox.Rows.{IsIn}
use agents_system.Outbox.Steps.{Step, Reach, start, next}
use agents_system.Outbox.Changes.{replies, ends, retries, gives_up}
use agents_system.Outbox.Fates.{Fate, stayed, taken, told, step-Fate, step-origin, Fate-id}

-- Any number of further transactions.
pub data Later (max : ℕ) : Outbox → Outbox → Type 0 where
  at_once : (box : Outbox) → Later max box box
  onward :
      {box between after : Outbox}
      → Later max box between
      → Step max between after
      → Later max box after

pub Later-trans :
    (max : ℕ) (box between after : Outbox)
    → Later max box between
    → Later max between after
    → Later max box after
Later-trans max box between after l (at_once box') = l
Later-trans max box between after l (onward {between = b} m s) =
    onward {between = b} (Later-trans max box between b l m) s

pub Later-Reach :
    (max : ℕ) (box after : Outbox) → Reach max box → Later max box after → Reach max after
Later-Reach max box after r (at_once box') = r
Later-Reach max box after r (onward {between = b} l s) = next (Later-Reach max box b r l) s

live-open :
    (id : ℕ) (worker : String) (clock : ℕ) (w : Work)
    → is_live id worker clock w ≡ true
    → is_terminal w ≡ false
unfolding is_live
live-open id worker clock w h = ground arith

-- A row that is completed or failed is never changed, claimed or removed again.
pub terminal_stays :
    (max : ℕ) (box after : Outbox) (w : Work)
    → Reach max box
    → Later max box after
    → IsIn w box.rows
    → is_terminal w ≡ true
    → IsIn w after.rows
terminal_stays max box after w r (at_once box') m h = m
terminal_stays max box after w r (onward {between = b} l s) m h =
    let (w', m', f) =
      step-Fate max b after w (Later-Reach max box b r l) s (terminal_stays max box b w r l m h) in
    same w' m' f
  where
    same : (w' : Work) → IsIn w' after.rows → Fate max w w' → IsIn w after.rows
    same w' m' (stayed e) = subst (λ x. IsIn x after.rows) e m'
    same w' m' (taken req n live e) = absurd (ground arith)
    same w' m' (told id worker clock change live rep e) =
        absurd (ground (arith, live-open id worker clock w live))

-- No row is attempted more often than the limit.
pub attempts_capped :
    (max : ℕ) (box : Outbox) (w : Work) → Reach max box → IsIn w box.rows → w.attempt_count ≤ max
unfolding claim_row lease_row terminal_row intent_row complete_row retry_row failure_row reply_row
attempts_capped max box w start m = absurd m
attempts_capped max box w (next {box = b} r s) m = elim (step-origin max b box w r s m) [
  | inl new ↦ omega arith
  | inr (x, in_b, f) ↦ capped x (attempts_capped max b x r in_b) f
]
  where
    given_up :
        (at : ℕ) (error : String) (reply : Option (String × String)) (x : Work)
        → (terminal_row at error (reply_row reply (failure_row error x))).attempt_count
          ≡ x.attempt_count
    given_up at error none x = refl
    given_up at error (some (body, key)) x = refl

    capped : (x : Work) → x.attempt_count ≤ max → Fate max x w → w.attempt_count ≤ max
    capped x h (stayed e) = ground arith
    capped x h (taken req n live e) = ground (arith)
    capped x h (told id worker clock change live (replies body key _ _) e) = ground arith
    capped x h (told id worker clock change live (ends at) e) = ground arith
    capped x h (told id worker clock change live (retries at error) e) = ground arith
    capped x h (told id worker clock change live (gives_up at error fallback) e) =
        ground (arith, given_up at error (fallback_of fallback x.outbound_body) x)

-- The row holds this reply.
abbrev pub IsAnswer : String → String → Work → Type 0
IsAnswer body key w = (w.outbound_body ≡ some body) × (w.outbound_send_key ≡ some key)

Fate-IsAnswer :
    (max : ℕ) (body key : String) (w w' : Work)
    → IsAnswer body key w
    → Fate max w w'
    → IsAnswer body key w'
unfolding claim_row lease_row terminal_row intent_row complete_row retry_row failure_row conflicts
    fallback_of reply_row
Fate-IsAnswer max body key w w' a (stayed e) = ground arith
Fate-IsAnswer max body key w w' a (taken req n live e) = ground arith
Fate-IsAnswer max body key w w' a (told id worker clock change live (replies b k no_k no_b) e) =
    ground arith
Fate-IsAnswer max body key w w' a (told id worker clock change live (ends at) e) = ground arith
Fate-IsAnswer max body key w w' a (told id worker clock change live (retries at error) e) =
    ground arith
Fate-IsAnswer max body key w w' a
      (told id worker clock change live (gives_up at error fallback) e) =
    ground arith

-- A reply once committed is the row's for good: whatever the workers do afterwards, other replies,
-- retries and fallbacks included, the row with that id keeps its body and its send key.
pub reply_kept :
    (max : ℕ) (box after : Outbox) (w : Work) (body key : String)
    → Reach max box
    → Later max box after
    → IsIn w box.rows
    → IsAnswer body key w
    → (w' : Work) × IsIn w' after.rows × (w'.id ≡ w.id) × IsAnswer body key w'
reply_kept max box after w body key r (at_once box') m a = (w, m, refl, a)
reply_kept max box after w body key r (onward {between = b} l s) m a =
    let (x, in_b, ids, ax) = reply_kept max box b w body key r l m a in
    let (w', m', f) = step-Fate max b after x (Later-Reach max box b r l) s in_b in
    (w', m', Fate-id max x w' f ∙ ids, Fate-IsAnswer max body key x w' ax f)
