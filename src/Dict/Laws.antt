-- ===== src/Dict/Laws.antt =====
-- Reads, lengths and keys of a dict after a write.
use agents_system.Prelude.{
  ◌++◌, ◌+◌, ◌≤◌, Eq, ◌==◌, [], ◌∷◌, none, some, ◌≡◌, refl, arith, length, if◌then◌else◌,
}
use agents_system.Dict.{Dict, keys, get, put, pop}

module _ {ℓ} {K V : Type ℓ} ⦃e : Eq K⦄ where
  pub get-put :
      (k j : K) (v : V) (d : Dict K V) → get j (put k v d) ≡ (if k == j then some v else get j d)
  unfolding get put
  get-put k j v [] = refl
  get-put k j v ((i, w) ∷ d) = ground (arith, get-put k j v d)

  pub get-pop : (k j : K) (d : Dict K V) → get j (pop k d) ≡ (if k == j then none else get j d)
  unfolding get pop
  get-pop k j [] = ground arith
  get-pop k j ((i, w) ∷ d) = ground (arith, get-pop k j d)

  pub length-put_absent :
      (k : K) (v : V) (d : Dict K V) → get k d ≡ none → length (put k v d) ≡ length d + 1
  unfolding get put
  length-put_absent k v [] h = omega arith
  length-put_absent k v ((i, w) ∷ d) h = ground (arith, length-put_absent k v d)

  pub length-put_present :
      (k : K) (v w : V) (d : Dict K V) → get k d ≡ some w → length (put k v d) ≡ length d
  unfolding get put
  length-put_present k v w [] h = ground arith
  length-put_present k v w ((i, u) ∷ d) h = ground (arith, length-put_present k v w d)

  pub length-pop-le : (k : K) (d : Dict K V) → length (pop k d) ≤ length d
  unfolding pop
  length-pop-le k [] = omega arith
  length-pop-le k ((i, w) ∷ d) = ground (arith, length-pop-le k d)

  pub keys-put_absent :
      (k : K) (v : V) (d : Dict K V) → get k d ≡ none → keys (put k v d) ≡ keys d ++ k ∷ []
  unfolding get put
  keys-put_absent k v [] h = refl
  keys-put_absent k v ((i, w) ∷ d) h = ground (arith, keys-put_absent k v d)

pub ruleset dict_laws = (get-put, get-pop)
