-- ===== src/Outbox/Left.antt =====
-- The claims that a row of services/outbox.py may still take.
use agents_system.Prelude.{
  ℕ, suc, ◌-◌, ◌<◌, ◌≤◌, ◌==◌, false, string_eq, nat_eq, List, [], ◌∷◌, map, sum_of, if◌then◌else◌,
  ◌≡◌, refl, ap, sym, subst, inl, inr, arith, Bool-cases,
}
use agents_system.Outbox.{Work, is_terminal}
use agents_system.Outbox.Claim.{Request, terminal_row, lease_row, claim_row}
use agents_system.Outbox.Rows.{IsIn, claimed_row}

-- The claims that a row may still take, the one that ends it included.
abbrev pub left : ℕ → Work → ℕ
left max row = if is_terminal row then 0 else suc (max - row.attempt_count)

claim_row-left :
    (req : Request) (w row : Work)
    → left req.max_attempts (claim_row req w row) ≤ left req.max_attempts row
unfolding claim_row lease_row terminal_row is_terminal
claim_row-left req w row = ground arith

claim_row-left_own :
    (req : Request) (w : Work)
    → is_terminal w ≡ false
    → left req.max_attempts (claim_row req w w) < left req.max_attempts w
unfolding claim_row lease_row terminal_row is_terminal
claim_row-left_own req w live = ground arith

pub claimed_row-left :
    (req : Request) (ws : List Work) (row : Work)
    → left req.max_attempts (claimed_row req ws row) ≤ left req.max_attempts row
unfolding claimed_row
claimed_row-left req [] row = omega arith
claimed_row-left req (w ∷ ws) row = elim (Bool-cases (row.id == w.id)) [
  | inl e ↦
      let rest = claimed_row-left req ws (claim_row req w row) in
      let one = claim_row-left req w row in
      let e' : claimed_row req (w ∷ ws) row ≡ claimed_row req ws (claim_row req w row) =
        ground arith in
      subst (λ x. left req.max_attempts x ≤ left req.max_attempts row) (sym e')
        (omega (arith, rest, one))
  | inr e ↦
      let rest = claimed_row-left req ws row in
      let e' : claimed_row req (w ∷ ws) row ≡ claimed_row req ws row = ground arith in
      subst (λ x. left req.max_attempts x ≤ left req.max_attempts row) (sym e') rest
]

-- A selected row has one claim less left.
pub claimed_row-left_own :
    (req : Request) (ws : List Work) (row : Work)
    → ((w : Work) → IsIn w ws → w.id ≡ row.id → w ≡ row)
    → is_terminal row ≡ false
    → IsIn row ws
    → left req.max_attempts (claimed_row req ws row) < left req.max_attempts row
unfolding claimed_row
claimed_row-left_own req [] row key live m = absurd m
claimed_row-left_own req (w ∷ ws) row key live m = elim (Bool-cases (row.id == w.id)) [
  | inl e ↦
      let own = claim_row-left_own req row live in
      let same : w ≡ row = key w (inl refl) (ground arith) in
      let rest = claimed_row-left req ws (claim_row req row row) in
      let e' : claimed_row req (w ∷ ws) row ≡ claimed_row req ws (claim_row req row row) =
        ground arith in
      subst (λ x. left req.max_attempts x < left req.max_attempts row) (sym e')
        (omega (arith, rest, own))
  | inr e ↦ elim m [
    | inl same ↦ absurd (ground (arith, ap (λ (y : Work). y.id) same))
    | inr there ↦
        let rest = claimed_row-left_own req ws row (λ x i. key x (inr i)) live there in
        let e' : claimed_row req (w ∷ ws) row ≡ claimed_row req ws row = ground arith in
        subst (λ x. left req.max_attempts x < left req.max_attempts row) (sym e') rest
  ]
]

pub sum_of-le :
    (m : Work → ℕ) (f : Work → Work) (rows : List Work)
    → ((r : Work) → m (f r) ≤ m r)
    → sum_of m (map f rows) ≤ sum_of m rows
sum_of-le m f [] h = omega arith
sum_of-le m f (r ∷ rows) h = omega (arith, h r, sum_of-le m f rows h)

pub sum_of-lt :
    (m : Work → ℕ) (f : Work → Work) (rows : List Work) (row : Work)
    → ((r : Work) → m (f r) ≤ m r)
    → IsIn row rows
    → m (f row) < m row
    → sum_of m (map f rows) < sum_of m rows
sum_of-lt m f [] row h i lt = absurd i
sum_of-lt m f (r ∷ rows) row h (inl same) lt =
    let here = subst (λ x. m (f x) < m x) (sym same) lt in omega (arith, here, sum_of-le m f rows h)
sum_of-lt m f (r ∷ rows) row h (inr there) lt =
    omega (arith, h r, sum_of-lt m f rows row h there lt)
