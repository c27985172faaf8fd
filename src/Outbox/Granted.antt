-- ===== src/Outbox/Granted.antt =====
-- The rows that a claim of services/outbox.py returns, and the lease that they have in the table.
use agents_system.Prelude.{
  ℕ, ◌==◌, Bool, true, false, none, some, String, string_eq, nat_eq, List, [], ◌∷◌, leb, ◌≡◌, refl,
  ap, sym, ◌∙◌, subst, ◌⊎◌, inl, inr, arith, Bool-cases,
}
use agents_system.Outbox.{Work, Outbox, is_terminal, is_pending, pending_outbox_work}
use agents_system.Outbox.Claim.{Request, lease_row, claim_row, claim_one, claim_rows}
use agents_system.Outbox.Settle.{is_live, find_live}
use agents_system.Outbox.Rows.{IsIn, IsIn-map, map-IsIn, IsIn-pending, claimed_row, claim_rows-rows}
use agents_system.Outbox.Keyed.{IsKeyed, claimed_row-Keeps}

-- The row has the lease of this claim.
abbrev pub IsGranted : Request → Work → Type 0
IsGranted req row =
    (row.lease_owner ≡ some req.worker_id)
    × (row.lease_expires_at ≡ some req.until)
    × (is_terminal row ≡ false)

claim_row-IsGranted :
    (req : Request) (w row : Work)
    → leb req.max_attempts w.attempt_count ≡ false
    → is_terminal row ≡ false
    → IsGranted req (claim_row req w row)
unfolding claim_row lease_row is_terminal
claim_row-IsGranted req w row free live = ground arith

-- A selected row that has attempts left, or has the lease already, has it after the loop.
claimed_row-IsGranted :
    (req : Request) (ws : List Work) (row : Work)
    → ((w : Work) → IsIn w ws → w.id ≡ row.id → leb req.max_attempts w.attempt_count ≡ false)
    → is_terminal row ≡ false
    → IsGranted req row ⊎ ((w : Work) × IsIn w ws × (w.id ≡ row.id))
    → IsGranted req (claimed_row req ws row)
unfolding claimed_row
claimed_row-IsGranted req [] row free live (inl g) = g
claimed_row-IsGranted req [] row free live (inr (w, m, i)) = absurd m
claimed_row-IsGranted req (w ∷ ws) row free live g = elim (Bool-cases (row.id == w.id)) [
  | inl e ↦
      let granted = claim_row-IsGranted req w row (free w (inl refl) (ground arith)) live in
      let same = (claimed_row-Keeps req (w ∷ [])).same_id row in
      let one : claimed_row req (w ∷ []) row ≡ claim_row req w row = ground arith in
      let ids : (claim_row req w row).id ≡ row.id = ap (λ x. x.id) (sym one) ∙ same in
      subst (IsGranted req) (ground arith) (
        claimed_row-IsGranted req ws (claim_row req w row) (λ x m i. free x (inr m) (i ∙ ids))
          granted.2 (inl granted))
  | inr e ↦ subst (IsGranted req) (ground arith) (
      claimed_row-IsGranted req ws row (λ x m. free x (inr m)) live
        (elim g [
          | inl granted ↦ inl granted
          | inr (x, m, i) ↦ elim m [
            | inl same ↦ absurd (ground (arith, ap (λ (y : Work). y.id) same))
            | inr there ↦ inr (x, there, i)
          ]
        ]))
]

-- A claimed row is a selected one, with attempts left, as the loop leaves it.
pub claimed_selected :
    (req : Request) (ws : List Work) (box : Outbox) (c : Work)
    → IsIn c (claim_rows req ws box).claimed
    → (w : Work) × IsIn w ws
      × (leb req.max_attempts w.attempt_count ≡ false)
      × (c ≡ claim_row req w w)
unfolding claim_rows
claimed_selected req [] box c m = absurd m
claimed_selected req (w ∷ ws) box c m =
    let rest = claim_rows req ws (claim_one req w box) in
    elim (Bool-cases (leb req.max_attempts w.attempt_count)) [
      | inl e ↦
          let same : (claim_rows req (w ∷ ws) box).claimed ≡ rest.claimed = ground arith in
          let (x, i, f, ec) =
            claimed_selected req ws (claim_one req w box) c (subst (IsIn c) same m) in
          (x, inr i, f, ec)
      | inr e ↦
          let same : (claim_rows req (w ∷ ws) box).claimed ≡ claim_row req w w ∷ rest.claimed =
            ground arith in
          elim (subst (IsIn c) same m) [
            | inl here ↦ (w, inl refl, e, sym here)
            | inr there ↦
                let (x, i, f, ec) = claimed_selected req ws (claim_one req w box) c there in
                (x, inr i, f, ec)
          ]
    ]

-- A row that a claim returns is in the table, and each row of its id has the lease of the claim.
pub granted :
    (req : Request) (locked : ℕ → Bool) (limit : ℕ) (box : Outbox) (c : Work)
    → IsKeyed box.rows
    → let o = claim_rows req (pending_outbox_work req.now limit locked box.rows) box in
      IsIn c o.claimed
      → ((r : Work) × IsIn r o.box.rows × (r.id ≡ c.id))
        × ((r : Work) → IsIn r o.box.rows → r.id ≡ c.id → IsGranted req r)
unfolding claim_row lease_row is_pending
granted req locked limit box c v m =
    let picked = pending_outbox_work req.now limit locked box.rows in
    let (w, in_picked, free, ec) = claimed_selected req picked box c m in
    let (in_rows, pending) = IsIn-pending req.now limit locked box.rows w in_picked in
    let ids : c.id ≡ w.id = ground arith in
    let rows = claim_rows-rows req picked box in
    let k = claimed_row-Keeps req picked in
    (
      (
        claimed_row req picked w,
        subst (IsIn (claimed_row req picked w)) (sym rows)
            (map-IsIn (claimed_row req picked) w box.rows in_rows),
        k.same_id w ∙ sym ids,
      ),
      λ r in_r same.
          let (r', mr, er) =
            IsIn-map (claimed_row req picked) r box.rows (subst (IsIn r) rows in_r) in
          let ids' : r'.id ≡ w.id = sym (k.same_id r') ∙ ap (λ (x : Work). x.id) er ∙ same ∙ ids in
          let is_w = v r' w mr in_rows ids' in
          subst (IsGranted req) er (
            claimed_row-IsGranted req picked r'
              (λ x mx i.
                let in_x = (IsIn-pending req.now limit locked box.rows x mx).0 in
                let x_w = v x w in_x in_rows (i ∙ ids') in
                subst (λ (y : Work). leb req.max_attempts y.attempt_count ≡ false) (sym x_w) free)
              (rw is_w (ground arith)) (inr (w, in_picked, sym ids'))),
    )

pub find_live-none :
    (id : ℕ) (worker : String) (clock : ℕ) (rows : List Work)
    → ((r : Work) → IsIn r rows → is_live id worker clock r ≡ false)
    → find_live id worker clock rows ≡ none
unfolding find_live
find_live-none id worker clock [] h = refl
find_live-none id worker clock (r ∷ rows) h =
    ground (arith, h r (inl refl), find_live-none id worker clock rows (λ x m. h x (inr m)))

pub find_live-found :
    (id : ℕ) (worker : String) (clock : ℕ) (rows : List Work) (r : Work)
    → IsIn r rows
    → is_live id worker clock r ≡ true
    → (w : Work) × (find_live id worker clock rows ≡ some w)
unfolding find_live
find_live-found id worker clock [] r m h = absurd m
find_live-found id worker clock (x ∷ rows) r m h = elim (Bool-cases (is_live id worker clock x)) [
  | inl e ↦ (x, ground arith)
  | inr e ↦ elim m [
    | inl same ↦ absurd (ground (arith, ap (is_live id worker clock) same))
    | inr there ↦ let (w, f) = find_live-found id worker clock rows r there h in (w, ground arith)
  ]
]
