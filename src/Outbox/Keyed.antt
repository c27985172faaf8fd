-- ===== src/Outbox/Keyed.antt =====
-- What the transactions of services/outbox.py keep of the rows: their ids, and who holds a lease.
use agents_system.Prelude.{
  ℕ, ◌==◌, Bool, true, false, none, some, Option, String, string_eq, nat_eq, List, [], ◌∷◌, ◌++◌,
  ◌≢◌, map, any, is_none, ◌≡◌, refl, ap, sym, ◌∙◌, subst, ◌⊎◌, inl, inr, arith, Bool-cases,
}
use agents_system.Outbox.{
  Work, Outbox, new_work, is_terminal, is_older_sibling, is_pending, pending_outbox_work,
}
use agents_system.Outbox.Claim.{terminal_row, lease_row, Request, claim_row}
use agents_system.Outbox.Rows.{IsIn, IsIn-map, IsIn-append, Keeps, claimed_row}
use agents_system.Outbox.Settle.{
  intent_row, complete_row, reply_row, failure_row, retry_row, fallback_of,
}
use agents_system.Outbox.Steps.{IsOldest, Reach, start, next}
use agents_system.Outbox.Effects.{Effect, unchanged, added, leased, reported, step-Effect}
use agents_system.Outbox.Changes.{Report, replies, ends, retries, gives_up, at_id}

-- The row is not terminal and a worker holds a lease on it, live or expired.
abbrev pub IsHeld : Work → Type 0
IsHeld work = (is_terminal work ≡ false) × (is_none work.lease_expires_at ≡ false)

-- The id is the primary key.
abbrev pub IsKeyed : List Work → Type 0
IsKeyed rows = (a b : Work) → IsIn a rows → IsIn b rows → a.id ≡ b.id → a ≡ b

-- A change of the rows, one by one, that keeps their ids.
map-IsKeyed : (f : Work → Work) (rows : List Work) → Keeps f → IsKeyed rows → IsKeyed (map f rows)
map-IsKeyed f rows k v a b in_a in_b same =
    let (a', ma, ea) = IsIn-map f a rows in_a in
    let (b', mb, eb) = IsIn-map f b rows in_b in
    let ids : a'.id ≡ b'.id =
      sym (k.same_id a') ∙ ap (λ w. w.id) ea ∙ same ∙ sym (ap (λ w. w.id) eb) ∙ k.same_id b' in
    sym ea ∙ ap f (v a' b' ma mb ids) ∙ eb

pub claim_row-Keeps : (req : Request) (w : Work) → Keeps (claim_row req w)
unfolding claim_row terminal_row lease_row is_terminal
claim_row-Keeps req w = record {
  same_id = λ r. ground arith;
  same_key = λ r. ground arith;
  same_enqueued_at = λ r. ground arith;
  still_terminal = λ r h. ground arith;
}

pub claimed_row-Keeps : (req : Request) (ws : List Work) → Keeps (claimed_row req ws)
unfolding claimed_row
claimed_row-Keeps req [] = record {
  same_id = λ r. refl;
  same_key = λ r. refl;
  same_enqueued_at = λ r. refl;
  still_terminal = λ r h. h;
}
claimed_row-Keeps req (w ∷ ws) =
    let k = claimed_row-Keeps req ws in
    let one = claim_row-Keeps req w in
    record {
      same_id = λ r. ground (arith, k.same_id r, k.same_id (claim_row req w r), one.same_id r);
      same_key = λ r. ground (arith, k.same_key r, k.same_key (claim_row req w r), one.same_key r);
      same_enqueued_at = λ r. ground (
        arith,
        k.same_enqueued_at r,
        k.same_enqueued_at (claim_row req w r),
        one.same_enqueued_at r,
      );
      still_terminal = λ r h.
          ground
            (arith, k.still_terminal r, k.still_terminal (claim_row req w r), one.still_terminal r);
    }

-- A row that a claim changes is one of those it selected.
pub claimed_row-changes :
    (req : Request) (ws : List Work) (row : Work)
    → (claimed_row req ws row ≡ row) ⊎ ((w : Work) × IsIn w ws × (row.id ≡ w.id))
unfolding claimed_row
claimed_row-changes req [] row = inl refl
claimed_row-changes req (w ∷ ws) row = elim (Bool-cases (row.id == w.id)) [
  | inl e ↦ inr (w, inl refl, ground arith)
  | inr e ↦ elim (claimed_row-changes req ws row) [
    | inl same ↦ inl (ground arith)
    | inr (w', m, i) ↦ inr (w', inr m, i)
  ]
]

-- A report keeps what a row is known by, and gives no lease.
pub Report-Keeps :
    (w : Work) (f : Work → Work) → Report w f → Keeps f × ((x : Work) → IsHeld (f x) → IsHeld x)
unfolding intent_row complete_row reply_row failure_row retry_row terminal_row is_terminal
Report-Keeps w f (replies body key _ _) = (
  record {
    same_id = λ r. refl;
    same_key = λ r. refl;
    same_enqueued_at = λ r. refl;
    still_terminal = λ r h. h;
  },
  λ x h. h,
)
Report-Keeps w f (ends now) = (
  record {
    same_id = λ r. refl;
    same_key = λ r. refl;
    same_enqueued_at = λ r. refl;
    still_terminal = λ r h. ground arith;
  },
  λ x h. absurd (ground arith),
)
Report-Keeps w f (retries at error) = (
  record {
    same_id = λ r. refl;
    same_key = λ r. refl;
    same_enqueued_at = λ r. refl;
    still_terminal = λ r h. h;
  },
  λ x h. absurd (ground arith),
)
Report-Keeps w f (gives_up now error fallback) =
    gives_up-Keeps (fallback_of fallback w.outbound_body)
  where
    gives_up-Keeps :
        (reply : Option (String × String))
        → let g : Work → Work =
            λ x. terminal_row now error (reply_row reply (failure_row error x)) in
          Keeps g × ((x : Work) → IsHeld (g x) → IsHeld x)
    gives_up-Keeps none = (
      record {
        same_id = λ r. refl;
        same_key = λ r. refl;
        same_enqueued_at = λ r. refl;
        still_terminal = λ r h. ground arith;
      },
      λ x h. absurd (ground arith),
    )
    gives_up-Keeps (some (body, key)) = (
      record {
        same_id = λ r. refl;
        same_key = λ r. refl;
        same_enqueued_at = λ r. refl;
        still_terminal = λ r h. ground arith;
      },
      λ x h. absurd (ground arith),
    )

pub at_id-Keeps : (id : ℕ) (f : Work → Work) → Keeps f → Keeps (at_id id f)
at_id-Keeps id f k = record {
  same_id = λ r. ground (arith, k.same_id r);
  same_key = λ r. ground (arith, k.same_key r);
  same_enqueued_at = λ r. ground (arith, k.same_enqueued_at r);
  still_terminal = λ r h. ground (arith, k.still_terminal r);
}

pub is_pending-IsOldest :
    (now : ℕ) (locked : ℕ → Bool) (rows : List Work) (w : Work)
    → is_pending now locked rows w ≡ true
    → IsOldest rows w
unfolding is_pending
is_pending-IsOldest now locked rows w h s m = any-none (is_older_sibling w) rows s (ground arith) m
  where
    any-none :
        (p : Work → Bool) (rows : List Work) (s : Work)
        → any p rows ≡ false
        → IsIn s rows
        → p s ≡ false
    any-none p [] s e m = absurd m
    any-none p (r ∷ rows) s e (inl same) = subst (λ x. p x ≡ false) same (ground arith)
    any-none p (r ∷ rows) s e (inr m) = any-none p rows s (ground arith) m

pub claim-IsKeyed :
    (req : Request) (locked : ℕ → Bool) (limit : ℕ) (rows : List Work)
    → IsKeyed rows
    → IsKeyed (map (claimed_row req (pending_outbox_work req.now limit locked rows)) rows)
claim-IsKeyed req locked limit rows v =
    let picked = pending_outbox_work req.now limit locked rows in
    map-IsKeyed (claimed_row req picked) rows (claimed_row-Keeps req picked) v

append-IsKeyed :
    (rows : List Work) (new : Work)
    → ((s : Work) → IsIn s rows → s.id ≢ new.id)
    → IsKeyed rows
    → IsKeyed (rows ++ (new ∷ []))
append-IsKeyed rows new fresh v a b in_a in_b same = elim (IsIn-append a new rows in_a) [
  | inl ma ↦ elim (IsIn-append b new rows in_b) [
    | inl mb ↦ v a b ma mb same
    | inr eb ↦ absurd (fresh a ma (same ∙ sym (ap (λ w. w.id) eb)))
  ]
  | inr ea ↦ elim (IsIn-append b new rows in_b) [
    | inl mb ↦ absurd (fresh b mb (sym same ∙ sym (ap (λ w. w.id) ea)))
    | inr eb ↦ sym ea ∙ eb
  ]
]

Effect-IsKeyed :
    (max : ℕ) (rows after : List Work) → Effect max rows after → IsKeyed rows → IsKeyed after
unfolding new_work
Effect-IsKeyed max rows after (unchanged e) v = subst IsKeyed (sym e) v
Effect-IsKeyed max rows after (added work_id inbound_id now key fresh e) v =
    subst IsKeyed (sym e) (append-IsKeyed rows _ fresh v)
Effect-IsKeyed max rows after (leased now until worker locked limit one e) v =
    subst IsKeyed (sym e) (claim-IsKeyed _ locked limit rows v)
Effect-IsKeyed max rows after (reported id worker clock w change m live r e) v =
    subst IsKeyed (sym e)
      (map-IsKeyed (at_id w.id change) rows (at_id-Keeps w.id change (Report-Keeps w change r).0) v)

pub Reach-IsKeyed : (max : ℕ) (box : Outbox) → Reach max box → IsKeyed box.rows
Reach-IsKeyed max box start = λ a b in_a. absurd in_a
Reach-IsKeyed max box (next {box = before} r s) =
    Effect-IsKeyed max before.rows box.rows (step-Effect max before box s)
      (Reach-IsKeyed max before r)
