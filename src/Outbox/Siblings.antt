-- ===== src/Outbox/Siblings.antt =====
-- The leases of one conversation in services/outbox.py: the unique index, and what a claim leases.
use agents_system.Prelude.{
  ℕ, ◌==◌, ◌&&◌, not, any, Bool, false, string_eq, nat_eq, List, [], ◌∷◌, ◌≡◌, sym, subst, ◌⊎◌, inl,
  inr, arith,
}
use agents_system.Outbox.{Work, is_terminal, is_older, is_older_sibling, pending_outbox_work}
use agents_system.Outbox.Claim.{is_leased, has_two_leases, Request}
use agents_system.Outbox.Rows.{IsIn, IsIn-pending, claimed_row}
use agents_system.Outbox.Steps.{IsOldest}
use agents_system.Outbox.Keyed.{IsHeld, IsKeyed, claimed_row-changes, is_pending-IsOldest}

-- Two rows of a conversation are one older than the other, or have the same id.
pub older_or_same :
    (a b : Work)
    → a.conversation_key ≡ b.conversation_key
    → is_terminal a ≡ false
    → is_terminal b ≡ false
    → is_older_sibling a b ≡ false
    → is_older_sibling b a ≡ false
    → a.id ≡ b.id
unfolding is_older_sibling is_older
older_or_same a b key live_a live_b ab ba = ground arith

-- Rows of a conversation that hold a lease are one row.
abbrev pub IsExclusive : List Work → Type 0
IsExclusive rows =
    (a b : Work)
    → IsIn a rows
    → IsIn b rows
    → IsHeld a
    → IsHeld b
    → a.conversation_key ≡ b.conversation_key
    → a.id ≡ b.id

any-false :
    (p : Work → Bool) (rows : List Work) (s : Work) → any p rows ≡ false → IsIn s rows → p s ≡ false
any-false p [] s e m = absurd m
any-false p (r ∷ rows) s e (inl same) = subst (λ x. p x ≡ false) same (ground arith)
any-false p (r ∷ rows) s e (inr m) = any-false p rows s (ground arith) m

pub index-IsExclusive : (rows : List Work) → has_two_leases rows ≡ false → IsExclusive rows
unfolding has_two_leases is_leased
index-IsExclusive rows h a b in_a in_b held_a held_b key =
    let inside : Work → Bool =
      λ c. is_leased c && c.conversation_key == a.conversation_key && not (c.id == a.id) in
    let outer =
      any-false
        (λ c.
          is_leased c
          && any
              (λ d. is_leased d && d.conversation_key == c.conversation_key && not (d.id == c.id))
              rows)
        rows a h in_a in
    let none_inside : any inside rows ≡ false = ground (arith, outer, held_a.0, held_a.1) in
    let inner = any-false inside rows b none_inside in_b in
    ground (arith, inner, held_b.0, held_b.1, key)

-- A claim leases oldest rows only.
pub claimed_row-held :
    (req : Request) (locked : ℕ → Bool) (limit : ℕ) (rows : List Work) (w : Work)
    → IsKeyed rows
    → IsIn w rows
    → IsHeld (claimed_row req (pending_outbox_work req.now limit locked rows) w)
    → IsHeld w ⊎ IsOldest rows w
claimed_row-held req locked limit rows w v m held =
    let picked = pending_outbox_work req.now limit locked rows in
    elim (claimed_row-changes req picked w) [
      | inl same ↦ inl (subst IsHeld same held)
      | inr (p, in_p, ids) ↦
          let (in_rows, pending) = IsIn-pending req.now limit locked rows p in_p in
          let oldest = is_pending-IsOldest req.now locked rows p pending in
          inr (subst (IsOldest rows) (sym (v w p m in_rows ids)) oldest)
    ]
