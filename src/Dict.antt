-- ===== src/Dict.antt =====
-- Python's `dict`: an association list in insertion order, over keys with equality. An assignment
-- to a present key keeps its place, as Python does.
pub mod Laws
pub mod Distinct
use agents_system.Prelude.{
  Eq, ◌==◌, List, [], ◌∷◌, Option, none, some, Bool, true, false, if◌then◌else◌, map,
}

abbrev pub Dict {ℓ} : Type ℓ → Type ℓ → Type ℓ
Dict K V = List (K × V)

module _ {ℓ} {K V : Type ℓ} ⦃e : Eq K⦄ where
  -- `d.get(k)`
  unfoldable pub get : K → Dict K V → Option V
  get k [] = none
  get k ((j, v) ∷ d) = if j == k then some v else get k d

  -- `d[k] = v`
  unfoldable pub put : K → V → Dict K V → Dict K V
  put k v [] = (k, v) ∷ []
  put k v ((j, w) ∷ d) = if j == k then (j, v) ∷ d else (j, w) ∷ put k v d

  -- `d.pop(k, None)`
  unfoldable pub pop : K → Dict K V → Dict K V
  pop k [] = []
  pop k ((j, w) ∷ d) = if j == k then pop k d else (j, w) ∷ pop k d

  -- `k in d`
  abbrev pub has : K → Dict K V → Bool
  has k d = elim (get k d) [ none ↦ false | some _ ↦ true ]

module _ {ℓ} {K V : Type ℓ} where
  -- `d.values()`
  abbrev pub values : Dict K V → List V
  values = map (λ p. p.1)

  -- `tuple(d)`
  abbrev pub keys : Dict K V → List K
  keys = map (λ p. p.0)
