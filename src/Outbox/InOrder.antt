-- ===== src/Outbox/InOrder.antt =====
-- Tables of services/outbox.py in which each leased row is the oldest of its conversation.
use agents_system.Prelude.{
  ℕ, ◌==◌, ◌&&◌, nat_eq, string_eq, not, any, Bool, true, false, List, [], ◌∷◌, map, ◌≡◌, refl, sym,
  subst, inl, inr, arith, Bool-cases,
}
use agents_system.Outbox.{Work, is_older_sibling, pending_outbox_work}
use agents_system.Outbox.Claim.{is_leased, has_two_leases, Request}
use agents_system.Outbox.Rows.{IsIn, IsIn-map, Keeps-sibling, claimed_row}
use agents_system.Outbox.Steps.{IsOldest}
use agents_system.Outbox.Keyed.{IsHeld, IsKeyed, claimed_row-Keeps}
use agents_system.Outbox.Siblings.{older_or_same, claimed_row-held}

-- No row is leased beside an older one that is not terminal.
abbrev pub IsInOrder : List Work → Type 0
IsInOrder rows = (w : Work) → IsIn w rows → IsHeld w → IsOldest rows w

pub claim-IsInOrder :
    (req : Request) (locked : ℕ → Bool) (limit : ℕ) (rows : List Work)
    → IsKeyed rows
    → IsInOrder rows
    → IsInOrder (map (claimed_row req (pending_outbox_work req.now limit locked rows)) rows)
claim-IsInOrder req locked limit rows v o w in_w held s in_s =
    let picked = pending_outbox_work req.now limit locked rows in
    let f = claimed_row req picked in
    let k = claimed_row-Keeps req picked in
    let (w', mw, ew) = IsIn-map f w rows in_w in
    let (s', ms, es) = IsIn-map f s rows in_s in
    let oldest : IsOldest rows w' =
      elim (claimed_row-held req locked limit rows w' v mw (subst IsHeld (sym ew) held)) [
        | inl was ↦ o w' mw was
        | inr first ↦ first
      ] in
    let kept = Keeps-sibling f w' s' k (oldest s' ms) in
    subst (λ x. is_older_sibling w x ≡ false) es
      (subst (λ x. is_older_sibling x (f s') ≡ false) ew kept)

any-none :
    (p : Work → Bool) (rows : List Work)
    → ((r : Work) → IsIn r rows → p r ≡ false)
    → any p rows ≡ false
any-none p [] h = refl
any-none p (r ∷ rows) h = ground (arith, h r (inl refl), any-none p rows (λ x m. h x (inr m)))

-- In such tables the index of live leases holds.
pub IsInOrder-has_two_leases :
    (rows : List Work) → IsKeyed rows → IsInOrder rows → has_two_leases rows ≡ false
unfolding has_two_leases is_leased
IsInOrder-has_two_leases rows v o = any-none _ rows (λ a ma. elim (Bool-cases (is_leased a)) [
  | inr free ↦ ground arith
  | inl held_a ↦
      let inside : Work → Bool =
        λ b. is_leased b && b.conversation_key == a.conversation_key && not (b.id == a.id) in
      let none_inside : any inside rows ≡ false =
        any-none inside rows (λ b mb. alone a b ma mb held_a) in
      ground arith
])
  where
    alone :
        (a b : Work)
        → IsIn a rows
        → IsIn b rows
        → is_leased a ≡ true
        → (is_leased b && b.conversation_key == a.conversation_key && not (b.id == a.id)) ≡ false
    alone a b ma mb held_a =
        elim (Bool-cases (is_leased b && b.conversation_key == a.conversation_key)) [
          | inr e ↦ ground arith
          | inl e ↦
              let ha : IsHeld a = (ground arith, ground arith) in
              let hb : IsHeld b = (ground arith, ground arith) in
              let same =
                older_or_same a b (ground arith) ha.0 hb.0 (o a ma ha b mb) (o b mb hb a ma) in
              ground arith
        ]
