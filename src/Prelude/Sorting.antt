-- ===== src/Prelude/Sorting.antt =====
-- `sorted(xs, key=...)`: a stable sort by insertion, over the test that one element comes first.
use Prim.Native.Nat.{suc}
use mathlib.Core.Path.{◌≡◌, refl}
use mathlib.Core.Bool.{Bool}
use mathlib.Core.List.{List, [], ◌∷◌}
use native.Mathlib.Omega.{arith}
use agents_system.Prelude.Tests.{if◌then◌else◌}
use agents_system.Prelude.Lists.{length, count_if}

module _ {ℓ} {A : Type ℓ} where
  -- the element goes before the first one that does not come before it
  abbrev pub insert_by : (A → A → Bool) → A → List A → List A
  insert_by first x [] = x ∷ []
  insert_by first x (y ∷ ys) =
      let rest = insert_by first x ys in if first y x then y ∷ rest else x ∷ y ∷ ys

  abbrev pub sort_by : (A → A → Bool) → List A → List A
  sort_by first [] = []
  sort_by first (x ∷ xs) = insert_by first x (sort_by first xs)

  insert_by-length :
      (first : A → A → Bool) (x : A) (ys : List A) → length (insert_by first x ys) ≡ suc (length ys)
  insert_by-length first x [] = refl
  insert_by-length first x (y ∷ ys) = ground (arith, insert_by-length first x ys)

  pub sort_by-length : (first : A → A → Bool) (xs : List A) → length (sort_by first xs) ≡ length xs
  sort_by-length first [] = refl
  sort_by-length first (x ∷ xs) =
      ground (arith, sort_by-length first xs, insert_by-length first x (sort_by first xs))

  insert_by-count :
      (first : A → A → Bool) (p : A → Bool) (x : A) (ys : List A)
      → count_if p (insert_by first x ys) ≡ count_if p (x ∷ ys)
  insert_by-count first p x [] = refl
  insert_by-count first p x (y ∷ ys) = ground (arith, insert_by-count first p x ys)

  pub sort_by-count :
      (first : A → A → Bool) (p : A → Bool) (xs : List A)
      → count_if p (sort_by first xs) ≡ count_if p xs
  sort_by-count first p [] = refl
  sort_by-count first p (x ∷ xs) =
      ground (arith, sort_by-count first p xs, insert_by-count first p x (sort_by first xs))
