-- ===== src/Outbox/Fates.antt =====
-- What a transaction of services/outbox.py makes of one row of the table.
use agents_system.Prelude.{
  ℕ, ◌==◌, Bool, true, false, String, nat_eq, List, [], ◌∷◌, ◌++◌, ◌≡◌, refl, ap, sym, ◌∙◌, subst,
  ◌⊎◌, inl, inr, arith, Bool-cases,
}
use agents_system.Outbox.{Work, Outbox, is_terminal, is_pending, pending_outbox_work, new_work}
use agents_system.Outbox.Claim.{Request, claim_row}
use agents_system.Outbox.Settle.{is_live}
use agents_system.Outbox.Rows.{IsIn, map-IsIn, IsIn-map, IsIn-append, IsIn-pending, claimed_row}
use agents_system.Outbox.Steps.{Step, Reach}
use agents_system.Outbox.Changes.{Report, at_id}
use agents_system.Outbox.Effects.{Effect, unchanged, added, leased, reported, step-Effect}
use agents_system.Outbox.Keyed.{IsKeyed, claim_row-Keeps, Report-Keeps}
use agents_system.Outbox.Keyed.{Reach-IsKeyed}
use agents_system.Outbox.Unique.{IsUnique, pending-IsUnique, claimed_row-once, Reach-IsUnique}

-- A row stays, is taken by a claim, or is changed by the report of a worker with a live lease on it.
pub data Fate (max : ℕ) (row after : Work) : Type 0 where
  stayed : after ≡ row → Fate max row after
  taken :
      (req : Request)
      → req.max_attempts ≡ max
      → is_terminal row ≡ false
      → after ≡ claim_row req row row
      → Fate max row after
  told :
      (id : ℕ) (worker : String) (clock : ℕ) (change : Work → Work)
      → is_live id worker clock row ≡ true
      → Report row change
      → after ≡ change row
      → Fate max row after

leased-Fate :
    (req : Request) (locked : ℕ → Bool) (limit : ℕ) (rows : List Work) (w : Work)
    → IsKeyed rows
    → IsUnique rows
    → IsIn w rows
    → Fate req.max_attempts w (claimed_row req (pending_outbox_work req.now limit locked rows) w)
unfolding is_pending
leased-Fate req locked limit rows w v u m =
    let picked = pending_outbox_work req.now limit locked rows in
    elim (claimed_row-once req picked w (pending-IsUnique req.now limit locked rows u)) [
      | inl same ↦ stayed same
      | inr (p, in_p, ids, e) ↦
          let (in_rows, pending) = IsIn-pending req.now limit locked rows p in_p in
          let is_w = v p w in_rows m ids in
          let pending_w = subst (λ x. is_pending req.now locked rows x ≡ true) is_w pending in
          taken req refl (ground arith)
            (subst (λ x. claimed_row req picked w ≡ claim_row req x w) is_w e)
    ]

reported-Fate :
    (max : ℕ) (rows : List Work) (id : ℕ) (worker : String) (clock : ℕ) (f w : Work)
    (change : Work → Work)
    → IsKeyed rows
    → IsIn f rows
    → is_live id worker clock f ≡ true
    → Report f change
    → IsIn w rows
    → Fate max w (at_id f.id change w)
reported-Fate max rows id worker clock f w change v in_f live r m =
    elim (Bool-cases (w.id == f.id)) [
      | inl e ↦
          let is_w = v f w in_f m (ground arith) in
          told id worker clock change (subst (λ x. is_live id worker clock x ≡ true) is_w live)
            (subst (λ x. Report x change) is_w r) (ground arith)
      | inr e ↦ stayed (ground arith)
    ]

-- The fate of a row under a step, and the row in the table after it.
pub step-Fate :
    (max : ℕ) (box after : Outbox) (w : Work)
    → Reach max box
    → Step max box after
    → IsIn w box.rows
    → (w' : Work) × IsIn w' after.rows × Fate max w w'
step-Fate max box after w r s m =
    fate box.rows after.rows (step-Effect max box after s) (Reach-IsKeyed max box r)
      (Reach-IsUnique max box r) m
  where
    append-IsIn : (rows : List Work) (new : Work) → IsIn w rows → IsIn w (rows ++ (new ∷ []))
    append-IsIn [] new i = absurd i
    append-IsIn (r ∷ rows) new (inl e) = inl e
    append-IsIn (r ∷ rows) new (inr i) = inr (append-IsIn rows new i)

    fate :
        (rows after : List Work)
        → Effect max rows after
        → IsKeyed rows
        → IsUnique rows
        → IsIn w rows
        → (w' : Work) × IsIn w' after × Fate max w w'
    fate rows after (unchanged e) v u i = (w, subst (IsIn w) (sym e) i, stayed refl)
    fate rows after (added work_id inbound_id now key fresh e) v u i =
        (w, subst (IsIn w) (sym e) (append-IsIn rows _ i), stayed refl)
    fate rows after (leased now until worker locked limit one e) v u i =
        (_, subst (IsIn _) (sym e) (map-IsIn _ w rows i), leased-Fate _ locked limit rows w v u i)
    fate rows after (reported id worker clock f change in_f live r e) v u i = (
      _,
      subst (IsIn _) (sym e) (map-IsIn _ w rows i),
      reported-Fate max rows id worker clock f w change v in_f live r i,
    )

-- A row after a step is new, without attempts, or what became of a row before it.
pub step-origin :
    (max : ℕ) (box after : Outbox) (w' : Work)
    → Reach max box
    → Step max box after
    → IsIn w' after.rows
    → (w'.attempt_count ≡ 0) ⊎ ((w : Work) × IsIn w box.rows × Fate max w w')
unfolding new_work
step-origin max box after w' r s m =
    origin box.rows after.rows (step-Effect max box after s) (Reach-IsKeyed max box r)
      (Reach-IsUnique max box r) m
  where
    origin :
        (rows after : List Work)
        → Effect max rows after
        → IsKeyed rows
        → IsUnique rows
        → IsIn w' after
        → (w'.attempt_count ≡ 0) ⊎ ((w : Work) × IsIn w rows × Fate max w w')
    origin rows after (unchanged e) v u i = inr (w', subst (IsIn w') e i, stayed refl)
    origin rows after (added work_id inbound_id now key fresh e) v u i =
        elim (IsIn-append w' _ rows (subst (IsIn w') e i)) [
          | inl held ↦ inr (w', held, stayed refl)
          | inr new ↦ inl (ap (λ x. x.attempt_count) (sym new))
        ]
    origin rows after (leased now until worker locked limit one e) v u i =
        let (w, m, f) = IsIn-map _ w' rows (subst (IsIn w') e i) in
        inr (w, m, subst (Fate max w) f (leased-Fate _ locked limit rows w v u m))
    origin rows after (reported id worker clock f change in_f live r e) v u i =
        let (w, m, g) = IsIn-map _ w' rows (subst (IsIn w') e i) in
        inr (
          w,
          m,
          subst (Fate max w) g (reported-Fate max rows id worker clock f w change v in_f live r m),
        )

pub Fate-id : (max : ℕ) (w w' : Work) → Fate max w w' → w'.id ≡ w.id
Fate-id max w w' (stayed e) = ap (λ x. x.id) e
Fate-id max w w' (taken req n live e) = ap (λ x. x.id) e ∙ (claim_row-Keeps req w).same_id w
Fate-id max w w' (told id worker clock change live r e) =
    ap (λ x. x.id) e ∙ (Report-Keeps w change r).0.same_id w
