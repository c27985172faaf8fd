-- ===== src/RetryPolicy/Chain.antt =====
-- The classification of services/retry_policy.py, against the cause chain.
use agents_system.Prelude.{
  ℕ, zero, suc, nat_eq, Bool, true, false, ◌||◌, Option, none, some, List, [], ◌∷◌, ◌≡◌, refl, ◌⊎◌,
  inl, inr, arith, contains, Bool-cases,
}
use agents_system.RetryPolicy.{
  Failure, is_transient_one, search, max_cause_depth, is_transient_failure,
}

module _ (heap : ℕ → Failure) where
  -- Whether one of the first exceptions of a cause chain is transient, with no record of those seen.
  abbrev pub has_transient : ℕ → Option ℕ → Bool
  has_transient zero current = false
  has_transient (suc left) none = false
  has_transient (suc left) (some id) =
      is_transient_one (heap id) || has_transient left (heap id).cause

  -- The seen exceptions are permanent, and the cause of each is the current one or a seen one.
  abbrev pub IsClosed : List ℕ → Option ℕ → Type 0
  IsClosed seen current =
      (s : ℕ)
      → contains s seen ≡ true
      → (is_transient_one (heap s) ≡ false)
        × (((heap s).cause ≡ current)
            ⊎ ((t : ℕ) × ((heap s).cause ≡ some t) × (contains t seen ≡ true)))

  -- From a seen exception the chain leads to seen ones only.
  has_transient_seen :
      (seen : List ℕ) (id : ℕ)
      → IsClosed seen (some id)
      → contains id seen ≡ true
      → (left t : ℕ) → contains t seen ≡ true
      → has_transient left (some t) ≡ false
  has_transient_seen seen id closed again zero t there = refl
  has_transient_seen seen id closed again (suc left) t there = elim (closed t there).1 [
    | inl e ↦
        let rest = has_transient_seen seen id closed again left id again in
        let permanent = (closed t there).0 in ground arith
    | inr (u, e, seen_u) ↦
        let rest = has_transient_seen seen id closed again left u seen_u in
        let permanent = (closed t there).0 in ground arith
  ]

  IsClosed-next :
      (seen : List ℕ) (id : ℕ)
      → IsClosed seen (some id)
      → is_transient_one (heap id) ≡ false
      → IsClosed (id ∷ seen) (heap id).cause
  IsClosed-next seen id closed permanent s there = elim (Bool-cases (contains s seen)) [
    | inl old ↦ (
      (closed s old).0,
      elim (closed s old).1 [
        | inl e ↦ inr (id, e, ground arith)
        | inr (t, e, seen_t) ↦ inr (t, e, ground arith)
      ],
    )
    | inr fresh ↦ let same : s ≡ id = ground arith in (ground arith, inl (ground arith))
  ]

  search-has_transient :
      (left : ℕ) (seen : List ℕ) (current : Option ℕ)
      → IsClosed seen current
      → search heap left seen current ≡ has_transient left current
  unfolding search
  search-has_transient zero seen current closed = refl
  search-has_transient (suc left) seen none closed = refl
  search-has_transient (suc left) seen (some id) closed = elim (Bool-cases (contains id seen)) [
    | inl again ↦
        let stuck = has_transient_seen seen id closed again (suc left) id again in ground arith
    | inr fresh ↦ elim (Bool-cases (is_transient_one (heap id))) [
      | inl transient ↦ ground arith
      | inr permanent ↦
          let rest =
            search-has_transient left (id ∷ seen) (heap id).cause
              (IsClosed-next seen id closed permanent) in
          ground arith
    ]
  ]

  -- A failure is retried exactly when one of the first eight exceptions of its cause chain is
  -- transient: the record of the exceptions seen, which ends the loop on a cycle, changes no
  -- answer.
  pub is_transient_failure-has_transient :
      (id : ℕ) → is_transient_failure heap id ≡ has_transient max_cause_depth (some id)
  unfolding is_transient_failure
  is_transient_failure-has_transient id =
      search-has_transient max_cause_depth [] (some id) (λ s there. absurd (ground arith))
