-- ===== src/Outbox/Fenced.antt =====
-- The row that a claim of services/outbox.py returned, while it counts the attempt of that claim.
use agents_system.Prelude.{
  ℕ, ◌≤◌, ◌<◌, Bool, true, none, some, Option, String, string_eq, nat_eq, List, leb, ◌≡◌, refl, ap,
  sym, ◌∙◌, subst, ◌⊎◌, inl, inr, arith, Bool-cases,
}
use agents_system.Outbox.{Work, Outbox, is_terminal, is_pending, pending_outbox_work}
use agents_system.Outbox.Claim.{Request, terminal_row, lease_row, claim_row, claim_rows}
use agents_system.Outbox.Settle.{
  intent_row, complete_row, retry_row, failure_row, reply_row, fallback_of,
}
use agents_system.Outbox.Rows.{IsIn, map-IsIn, IsIn-pending, claimed_row, claim_rows-rows}
use agents_system.Outbox.Changes.{replies, ends, retries, gives_up}
use agents_system.Outbox.Steps.{Reach}
use agents_system.Outbox.Keyed.{IsKeyed, claim_row-Keeps, claimed_row-Keeps}
use agents_system.Outbox.Unique.{IsUnique, pending-IsUnique, claimed_row-once}
use agents_system.Outbox.Granted.{IsGranted, claimed_selected, granted}
use agents_system.Outbox.Fates.{Fate, stayed, taken, told, step-Fate, Fate-id}
use agents_system.Outbox.Replies.{Later, at_once, onward, Later-Reach}

-- A row that counts `attempts` has the lease of the claim, or none; it never counts fewer.
abbrev pub IsFenced : Request → ℕ → Work → Type 0
IsFenced req attempts row =
    (attempts ≤ row.attempt_count)
    × (row.attempt_count ≡ attempts → IsGranted req row ⊎ (row.lease_expires_at ≡ none))

given_up :
    (at : ℕ) (error : String) (reply : Option (String × String)) (x : Work)
    → let left = terminal_row at error (reply_row reply (failure_row error x)) in
      (left.attempt_count ≡ x.attempt_count) × (left.lease_expires_at ≡ none)
unfolding terminal_row reply_row failure_row intent_row
given_up at error none x = (refl, refl)
given_up at error (some (body, key)) x = (refl, refl)

Fate-IsFenced :
    (max : ℕ) (req : Request) (attempts : ℕ) (w w' : Work)
    → IsFenced req attempts w
    → Fate max w w'
    → IsFenced req attempts w'
unfolding claim_row lease_row terminal_row intent_row complete_row retry_row failure_row is_terminal
Fate-IsFenced max req attempts w w' f (stayed e) = subst (IsFenced req attempts) (sym e) f
Fate-IsFenced max req attempts w w' (le, f) (taken req' n live e) =
    elim (Bool-cases (leb req'.max_attempts w.attempt_count)) [
      | inl spent ↦ (ground arith, λ h. inr (ground arith))
      | inr free ↦ (ground arith, λ h. absurd (ground arith))
    ]
Fate-IsFenced max req attempts w w' (le, f)
      (told id worker clock _ live (replies b k no_k no_b) e) =
    subst (IsFenced req attempts) (sym e) (le, f)
Fate-IsFenced max req attempts w w' (le, f) (told id worker clock _ live (ends at) e) =
    (ground arith, λ h. inr (ground arith))
Fate-IsFenced max req attempts w w' (le, f) (told id worker clock _ live (retries at error) e) =
    (ground arith, λ h. inr (ground arith))
Fate-IsFenced max req attempts w w' (le, f)
      (told id worker clock _ live (gives_up at error fallback) e) =
    let (count, free) = given_up at error (fallback_of fallback w.outbound_body) w in
    (ground (arith, count), λ h. inr (ap (λ (x : Work). x.lease_expires_at) e ∙ free))

pub Later-IsFenced :
    (max : ℕ) (box after : Outbox) (req : Request) (attempts : ℕ) (w : Work)
    → Reach max box
    → Later max box after
    → IsIn w box.rows
    → IsFenced req attempts w
    → (w' : Work) × IsIn w' after.rows × (w'.id ≡ w.id) × IsFenced req attempts w'
Later-IsFenced max box after req attempts w r (at_once box') m f = (w, m, refl, f)
Later-IsFenced max box after req attempts w r (onward {between = b} l s) m f =
    let (x, in_b, ids, fx) = Later-IsFenced max box b req attempts w r l m f in
    let (w', m', fate) = step-Fate max b after x (Later-Reach max box b r l) s in_b in
    (w', m', Fate-id max x w' fate ∙ ids, Fate-IsFenced max req attempts x w' fx fate)

-- A row that may be claimed has no lease that has not ended.
pub pending-ended :
    (now until : ℕ) (locked : ℕ → Bool) (rows : List Work) (w : Work)
    → is_pending now locked rows w ≡ true
    → w.lease_expires_at ≡ some until
    → until < now
unfolding is_pending
pending-ended now until locked rows w h e = ground arith

-- What a claim returns is in the table as it is returned, with the lease of the claim.
pub claimed-IsIn :
    (req : Request) (locked : ℕ → Bool) (limit : ℕ) (box : Outbox) (c : Work)
    → req.now ≤ req.until
    → IsKeyed box.rows
    → IsUnique box.rows
    → let o = claim_rows req (pending_outbox_work req.now limit locked box.rows) box in
      IsIn c o.claimed → IsIn c o.box.rows × IsGranted req c
claimed-IsIn req locked limit box c le v u m =
    let picked = pending_outbox_work req.now limit locked box.rows in
    let (w, in_picked, free, ec) = claimed_selected req picked box c m in
    let (in_rows, pending) = IsIn-pending req.now limit locked box.rows w in_picked in
    let rows = claim_rows-rows req picked box in
    let in_left =
      subst (IsIn (claimed_row req picked w)) (sym rows)
        (map-IsIn (claimed_row req picked) w box.rows in_rows) in
    let same_id : (claimed_row req picked w).id ≡ c.id =
      (claimed_row-Keeps req picked).same_id w
      ∙ sym ((claim_row-Keeps req w).same_id w)
      ∙ sym (ap (λ (x : Work). x.id) ec) in
    let g = (granted req locked limit box c v m).1 (claimed_row req picked w) in_left same_id in
    elim (claimed_row-once req picked w (pending-IsUnique req.now limit locked box.rows u)) [
      | inl same ↦
          let ended =
            pending-ended req.now req.until locked box.rows w pending
              (subst (IsGranted req) same g).1 in
          absurd (omega (arith, ended, le))
      | inr (p, in_p, ids, e) ↦
          let is_w = v p w (IsIn-pending req.now limit locked box.rows p in_p).0 in_rows ids in
          let is_c : claimed_row req picked w ≡ c = e ∙ ap (λ x. claim_row req x w) is_w ∙ sym ec in
          (
            subst (λ x. IsIn x (claim_rows req picked box).box.rows) is_c in_left,
            subst (IsGranted req) is_c g,
          )
    ]
