-- ===== src/Outbox/Rows.antt =====
-- What the operations of services/outbox.py do to the rows of the table, one row at a time.
use agents_system.Prelude.{
  ℕ, ◌==◌, Bool, true, false, string_eq, nat_eq, List, [], ◌∷◌, ◌++◌, map, if◌then◌else◌, leb,
  keep_if, Some, ◌≡◌, refl, ap, sym, ◌∙◌, subst, ◌⊎◌, inl, inr, arith, Bool-cases,
}
use agents_system.Outbox.{
  Work, Outbox, is_terminal, is_older, is_older_sibling, is_pending, insert_ordered, ordered, take,
  pending_outbox_work,
}
use agents_system.Outbox.Claim.{
  update_row, terminalize_work, Request, claim_row, claim_one, claim_rows,
}

-- The row is one of the list.
abbrev pub IsIn : Work → List Work → Type 0
IsIn row = Some (λ r. r ≡ row)

pub IsIn-map :
    (f : Work → Work) (row : Work) (rows : List Work)
    → IsIn row (map f rows)
    → (r : Work) × IsIn r rows × (f r ≡ row)
IsIn-map f row [] h = absurd h
IsIn-map f row (r ∷ rows) (inl e) = (r, inl refl, e)
IsIn-map f row (r ∷ rows) (inr h) = let (r', m, e) = IsIn-map f row rows h in (r', inr m, e)

pub map-IsIn :
    (f : Work → Work) (row : Work) (rows : List Work) → IsIn row rows → IsIn (f row) (map f rows)
map-IsIn f row [] h = absurd h
map-IsIn f row (r ∷ rows) (inl e) = inl (ap f e)
map-IsIn f row (r ∷ rows) (inr h) = inr (map-IsIn f row rows h)

pub IsIn-append :
    (row last : Work) (rows : List Work)
    → IsIn row (rows ++ (last ∷ []))
    → IsIn row rows ⊎ (last ≡ row)
IsIn-append row last [] (inl e) = inr e
IsIn-append row last [] (inr h) = absurd h
IsIn-append row last (r ∷ rows) (inl e) = inl (inl e)
IsIn-append row last (r ∷ rows) (inr h) = elim (IsIn-append row last rows h) [
  | inl m ↦ inl (inr m)
  | inr e ↦ inr e
]

pub IsIn-keep_if :
    (p : Work → Bool) (row : Work) (rows : List Work)
    → IsIn row (keep_if p rows)
    → IsIn row rows × (p row ≡ true)
IsIn-keep_if p row [] h = absurd h
IsIn-keep_if p row (r ∷ rows) h = elim (Bool-cases (p r)) [
  | inl kept ↦
      let e : keep_if p (r ∷ rows) ≡ r ∷ keep_if p rows = ground arith in
      elim (subst (IsIn row) e h) [
        | inl same ↦ (inl same, subst (λ x. p x ≡ true) same kept)
        | inr there ↦ let (m, t) = IsIn-keep_if p row rows there in (inr m, t)
      ]
  | inr dropped ↦
      let e : keep_if p (r ∷ rows) ≡ keep_if p rows = ground arith in
      let (m, t) = IsIn-keep_if p row rows (subst (IsIn row) e h) in (inr m, t)
]

pub IsIn-insert_ordered :
    (row w : Work) (ws : List Work) → IsIn row (insert_ordered w ws) → (w ≡ row) ⊎ IsIn row ws
unfolding insert_ordered
IsIn-insert_ordered row w [] (inl e) = inl e
IsIn-insert_ordered row w [] (inr h) = absurd h
IsIn-insert_ordered row w (x ∷ ws) h = ground (arith, IsIn-insert_ordered row w ws)

pub IsIn-ordered : (row : Work) (ws : List Work) → IsIn row (ordered ws) → IsIn row ws
unfolding ordered
IsIn-ordered row [] h = h
IsIn-ordered row (w ∷ ws) h = elim (IsIn-insert_ordered row w (ordered ws) h) [
  | inl e ↦ inl e
  | inr m ↦ inr (IsIn-ordered row ws m)
]

pub IsIn-take : (n : ℕ) (row : Work) (ws : List Work) → IsIn row (take n ws) → IsIn row ws
unfolding take
IsIn-take Prim.Native.Nat.zero row ws h = absurd h
IsIn-take (Prim.Native.Nat.suc n) row [] h = absurd h
IsIn-take (Prim.Native.Nat.suc n) row (w ∷ ws) (inl e) = inl e
IsIn-take (Prim.Native.Nat.suc n) row (w ∷ ws) (inr h) = inr (IsIn-take n row ws h)

-- A selected row is a row of the table that passes the `WHERE`.
pub IsIn-pending :
    (now limit : ℕ) (locked : ℕ → Bool) (rows : List Work) (row : Work)
    → IsIn row (pending_outbox_work now limit locked rows)
    → IsIn row rows × (is_pending now locked rows row ≡ true)
unfolding pending_outbox_work
IsIn-pending now limit locked rows row h =
    IsIn-keep_if (is_pending now locked rows) row rows
      (IsIn-ordered row _ (IsIn-take limit row _ h))

-- A function of rows leaves what they are known by, and a terminal row terminal.
pub record Keeps (f : Work → Work) : Type 0 where
  pub same_id : (w : Work) → (f w).id ≡ w.id
  pub same_key : (w : Work) → (f w).conversation_key ≡ w.conversation_key
  pub same_enqueued_at : (w : Work) → (f w).enqueued_at ≡ w.enqueued_at
  pub still_terminal : (w : Work) → is_terminal w ≡ true → is_terminal (f w) ≡ true

pub Keeps-sibling :
    (f : Work → Work) (w s : Work)
    → Keeps f
    → is_older_sibling w s ≡ false
    → is_older_sibling (f w) (f s) ≡ false
unfolding is_older_sibling is_older
Keeps-sibling f w s k h = ground (
  arith,
  k.same_id w,
  k.same_id s,
  k.same_key w,
  k.same_key s,
  k.same_enqueued_at w,
  k.same_enqueued_at s,
  k.still_terminal s,
)

-- The row that a claim of these works leaves of a row of the table.
unfoldable pub claimed_row : Request → List Work → Work → Work
unfolding claim_row
claimed_row req [] row = row
claimed_row req (w ∷ ws) row =
    claimed_row req ws (if row.id == w.id then claim_row req w row else row)

pub map-map : (f g : Work → Work) (rows : List Work) → map g (map f rows) ≡ map (λ r. g (f r)) rows
map-map f g [] = refl
map-map f g (r ∷ rows) = ground (arith, map-map f g rows)

claim_one-rows :
    (req : Request) (w : Work) (box : Outbox)
    → (claim_one req w box).rows ≡ map (λ r. if r.id == w.id then claim_row req w r else r) box.rows
unfolding claim_one terminalize_work update_row claim_row
claim_one-rows req w box = elim (Bool-cases (leb req.max_attempts w.attempt_count)) [
  | inl e ↦ rw e refl
  | inr e ↦ rw e refl
]

pub map-id : (rows : List Work) → map (λ r. r) rows ≡ rows
map-id [] = refl
map-id (r ∷ rows) = ground (arith, map-id rows)

pub claim_rows-rows :
    (req : Request) (ws : List Work) (box : Outbox)
    → (claim_rows req ws box).box.rows ≡ map (claimed_row req ws) box.rows
unfolding claim_rows claimed_row
claim_rows-rows req [] box = sym (map-id box.rows)
claim_rows-rows req (w ∷ ws) box =
    let rest : (claim_rows req (w ∷ ws) box).box.rows
        ≡ (claim_rows req ws (claim_one req w box)).box.rows =
      ground arith in
    rest
    ∙ claim_rows-rows req ws (claim_one req w box)
    ∙ ap (map (claimed_row req ws)) (claim_one-rows req w box)
    ∙ map-map _ (claimed_row req ws) box.rows
