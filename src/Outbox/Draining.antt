-- ===== src/Outbox/Draining.antt =====
-- Workers that crash after every claim of services/outbox.py.
use agents_system.Prelude.{
  ℕ, zero, suc, ◌<◌, ◌==◌, ◌&&◌, ◌||◌, Bool, true, false, string_eq, nat_eq, List, [], ◌∷◌, any,
  holds, is_none, All, keep_if, ltb, leb, ◌≡◌, refl, sym, subst, ◌⊎◌, inl, inr, arith, Bool-cases,
}
use agents_system.Outbox.{
  Work, is_terminal, is_older, is_older_sibling, is_pending, insert_ordered, ordered, take,
  pending_outbox_work,
}
use agents_system.Outbox.Rows.{IsIn}

is_older_irrefl : (r : Work) → is_older r r ≡ false
unfolding is_older
is_older_irrefl r = ground arith

is_older_trans : (s r w : Work) → is_older r w ≡ true → is_older s w ≡ false → is_older s r ≡ false
unfolding is_older
is_older_trans s r w rw sw = ground arith

pub All-IsIn :
    (P : Work → Type 0) (rows : List Work) (row : Work) → All P rows → IsIn row rows → P row
All-IsIn P [] row a i = absurd i
All-IsIn P (r ∷ rows) row (h, a) (inl same) = subst P same h
All-IsIn P (r ∷ rows) row (h, a) (inr there) = All-IsIn P rows row a there

-- The rows are all terminal, or one that is not has no older row that is not.
oldest :
    (rows : List Work)
    → All (λ r. is_terminal r ≡ true) rows
      ⊎ ((w : Work) × IsIn w rows
          × (is_terminal w ≡ false)
          × ((s : Work) → IsIn s rows → (is_terminal s ≡ true) ⊎ (is_older s w ≡ false)))
oldest [] = inl tt
oldest (r ∷ rows) = elim (Bool-cases (is_terminal r)) [
  | inl done ↦ elim (oldest rows) [
    | inl all ↦ inl (done, all)
    | inr (w, m, live, first) ↦ inr (
      w,
      inr m,
      live,
      λ s i. elim i [
        | inl same ↦ inl (subst (λ x. is_terminal x ≡ true) same done)
        | inr there ↦ first s there
      ],
    )
  ]
  | inr live ↦ elim (oldest rows) [
    | inl all ↦ inr (
      r,
      inl refl,
      live,
      λ s i. elim i [
        | inl same ↦ inr (subst (λ x. is_older x r ≡ false) same (is_older_irrefl r))
        | inr there ↦ inl (All-IsIn (λ x. is_terminal x ≡ true) rows s all there)
      ],
    )
    | inr (w, m, live', first) ↦ elim (Bool-cases (is_older r w)) [
      | inl older ↦ inr (
        r,
        inl refl,
        live,
        λ s i. elim i [
          | inl same ↦ inr (subst (λ x. is_older x r ≡ false) same (is_older_irrefl r))
          | inr there ↦ elim (first s there) [
            | inl done ↦ inl done
            | inr later ↦ inr (is_older_trans s r w older later)
          ]
        ],
      )
      | inr younger ↦ inr (
        w,
        inr m,
        live',
        λ s i. elim i [
          | inl same ↦ inr (subst (λ x. is_older x w ≡ false) same younger)
          | inr there ↦ first s there
        ],
      )
    ]
  ]
]

keep_if-IsIn :
    (p : Work → Bool) (row : Work) (rows : List Work)
    → IsIn row rows
    → p row ≡ true
    → IsIn row (keep_if p rows)
keep_if-IsIn p row [] i h = absurd i
keep_if-IsIn p row (r ∷ rows) (inl same) h =
    let kept = subst (λ x. p x ≡ true) (sym same) h in
    let e : keep_if p (r ∷ rows) ≡ r ∷ keep_if p rows = ground arith in
    subst (IsIn row) (sym e) (inl same)
keep_if-IsIn p row (r ∷ rows) (inr there) h =
    let rest = keep_if-IsIn p row rows there h in
    elim (Bool-cases (p r)) [
      | inl kept ↦
          let e : keep_if p (r ∷ rows) ≡ r ∷ keep_if p rows = ground arith in
          subst (IsIn row) (sym e) (inr rest)
      | inr dropped ↦
          let e : keep_if p (r ∷ rows) ≡ keep_if p rows = ground arith in
          subst (IsIn row) (sym e) rest
    ]

-- A selection with a positive limit takes a row where there is one to take.
take-ordered_some :
    (limit : ℕ) (ws : List Work) (w : Work)
    → 0 < limit
    → IsIn w ws
    → (x : Work) × IsIn x (take limit (ordered ws))
unfolding take ordered insert_ordered
take-ordered_some zero ws w h i = absurd (omega arith)
take-ordered_some (suc n) [] w h i = absurd i
take-ordered_some (suc n) (r ∷ ws) w h i = elim (list-cases (ordered ws)) [
  | inl empty ↦ (r, subst (λ l. IsIn r (take (suc n) (insert_ordered r l))) (sym empty) (inl refl))
  | inr (x, xs, e) ↦
      elim (Bool-cases
        (ltb x.available_at r.available_at || x.available_at == r.available_at && ltb x.id r.id)) [
          | inl before ↦
              let f : insert_ordered r (x ∷ xs) ≡ x ∷ insert_ordered r xs = ground arith in
              (
                x,
                subst (λ l. IsIn x (take (suc n) (insert_ordered r l))) (sym e)
                    (subst (λ l. IsIn x (take (suc n) l)) (sym f) (inl refl)),
              )
          | inr after ↦
              let f : insert_ordered r (x ∷ xs) ≡ r ∷ x ∷ xs = ground arith in
              (
                r,
                subst (λ l. IsIn r (take (suc n) (insert_ordered r l))) (sym e)
                    (subst (λ l. IsIn r (take (suc n) l)) (sym f) (inl refl)),
              )
        ]
]
  where
    list-cases : (l : List Work) → (l ≡ []) ⊎ ((x : Work) × (xs : List Work) × (l ≡ x ∷ xs))
    list-cases [] = inl refl
    list-cases (x ∷ xs) = inr (x, xs, refl)

-- At this instant no live lease and no backoff keeps the row from a claim.
abbrev pub IsRipe : ℕ → Work → Type 0
IsRipe now row =
    (is_terminal row ≡ true)
    ⊎ (leb row.available_at now ≡ true)
      × ((is_none row.lease_expires_at || holds (λ at. ltb at now) row.lease_expires_at) ≡ true)

none_older :
    (rows : List Work) (w : Work)
    → ((s : Work) → IsIn s rows → (is_terminal s ≡ true) ⊎ (is_older s w ≡ false))
    → any (is_older_sibling w) rows ≡ false
unfolding is_older_sibling
none_older [] w h = refl
none_older (r ∷ rows) w h = ground (arith, h r (inl refl), none_older rows w (λ s i. h s (inr i)))

-- While a row is not terminal, a claim over ripe rows takes one.
pub claim_takes :
    (now limit : ℕ) (rows : List Work)
    → 0 < limit
    → ((r : Work) → IsIn r rows → IsRipe now r)
    → All (λ r. is_terminal r ≡ true) rows
      ⊎ ((x : Work) × IsIn x (pending_outbox_work now limit (λ _. false) rows))
unfolding pending_outbox_work is_pending
claim_takes now limit rows positive ripe = elim (oldest rows) [
  | inl all ↦ inl all
  | inr (w, m, live, first) ↦
      let alone = none_older rows w first in
      let pending : is_pending now (λ _. false) rows w ≡ true = ground (arith, ripe w m) in
      inr (
        take-ordered_some limit (keep_if (is_pending now (λ _. false) rows) rows) w positive
          (keep_if-IsIn (is_pending now (λ _. false) rows) w rows m pending))
]
