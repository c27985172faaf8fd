-- ===== src/Dict/Distinct.antt =====
-- Dicts that hold no key twice, and properties of the values in a dict.
use agents_system.Prelude.{
  subst, Eq, ◌==◌, [], ◌∷◌, none, some, ◌≡◌, refl, arith, All, Bool-cases, inl, inr,
}
use agents_system.Dict.{Dict, get, put, pop}
use agents_system.Dict.Laws.{get-put, get-pop}

module _ {ℓ} {K V : Type ℓ} ⦃e : Eq K⦄ where
  abbrev pub Distinct : Dict K V → Type ℓ
  Distinct [] = Unit
  Distinct ((k, v) ∷ d) = (get k d ≡ none) × Distinct d

  pub Distinct-put : (k : K) (v : V) (d : Dict K V) → Distinct d → Distinct (put k v d)
  unfolding get put
  Distinct-put k v [] h = ground arith
  Distinct-put k v ((j, w) ∷ d) (new, h) = elim (Bool-cases (j == k)) [
    | inl same ↦ rw same (new, h)
    | inr other ↦ rw other (ground (arith, get-put k j v d), Distinct-put k v d h)
  ]

  pub Distinct-pop : (k : K) (d : Dict K V) → Distinct d → Distinct (pop k d)
  unfolding get pop
  Distinct-pop k [] h = h
  Distinct-pop k ((j, w) ∷ d) (new, h) = elim (Bool-cases (j == k)) [
    | inl same ↦ rw same (Distinct-pop k d h)
    | inr other ↦ rw other (ground (arith, get-pop k j d), Distinct-pop k d h)
  ]

  pub pop_absent : (k : K) (d : Dict K V) → get k d ≡ none → pop k d ≡ d
  unfolding get pop
  pop_absent k [] h = refl
  pop_absent k ((j, w) ∷ d) h = ground (arith, pop_absent k d)

module _ {ℓ κ} {K V : Type ℓ} ⦃e : Eq K⦄ (P : V → Type κ) where
  pub All-put :
      (k : K) (v : V) (d : Dict K V) → P v → All (λ p. P p.1) d → All (λ p. P p.1) (put k v d)
  unfolding put
  All-put k v [] h a = (h, tt)
  All-put k v ((j, w) ∷ d) h (b, a) = elim (Bool-cases (j == k)) [
    | inl same ↦ rw same (h, a)
    | inr other ↦ rw other (b, All-put k v d h a)
  ]

  pub All-get : (k : K) (v : V) (d : Dict K V) → All (λ p. P p.1) d → get k d ≡ some v → P v
  unfolding get
  All-get k v [] a h = absurd (cc)
  All-get k v ((j, w) ∷ d) (b, a) h = elim (Bool-cases (j == k)) [
    | inl same ↦ subst P (ground arith) b
    | inr other ↦ All-get k v d a (ground arith)
  ]
