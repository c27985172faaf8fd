-- ===== src/Prelude/Keys.antt =====
-- Equality of the values that the program compares, as an instance.
use Prim.Native.Nat.{ℕ}
use Prim.Native.String.{String}
use mathlib.Core.Path.{◌≡◌, refl}
use mathlib.Core.Logic.{◌⊎◌, inl, inr}
use mathlib.Core.Bool.{Bool, true, false, ◌&&◌}
use mathlib.Core.List.{List, [], ◌∷◌}
use agents_system.Prelude.Lists.{any, keep_if}
use native.Mathlib.Omega.{arith}
use native.Mathlib.Decide.{ℕ_discrete}
use text.Mathlib.Text.{◌==◌ as str_eq}
use text.Mathlib.TextEquality.{eq_iff}
use agents_system.Prelude.Tests.{Bool-cases}

pub record Eq {ℓ} (A : Type ℓ) : Type ℓ where
  pub dec : Discrete A

infix 50 ◌==◌
abbrev pub ◌==◌ {ℓ} : {A : Type ℓ} ⦃e : Eq A⦄ → A → A → Bool
◌==◌ ⦃e⦄ a b = elim (e.dec a b) [ yes _ ↦ true | no _ ↦ false ]

from_test : (s t : String) → (str_eq s t ≡ true) ⊎ (str_eq s t ≡ false) → Dec (s ≡ t)
from_test s t (inl same) = yes ((eq_iff s t).0 same)
from_test s t (inr other) = no (λ p. cc (other, (eq_iff s t).1 p))

unfoldable pub String_discrete : Discrete String
unfolding from_test Bool-cases
String_discrete s t = from_test s t (Bool-cases (str_eq s t))

instance abbrev pub nat_eq : Eq ℕ
nat_eq = record { dec = ℕ_discrete }

instance abbrev pub string_eq : Eq String
string_eq = record { dec = String_discrete }

-- `x in xs`
abbrev pub contains {ℓ} : {A : Type ℓ} ⦃e : Eq A⦄ → A → List A → Bool
contains x = any (λ y. x == y)

module _ {ℓ} {A : Type ℓ} ⦃e : Eq A⦄ where
  pub any-witness :
      (p : A → Bool) (xs : List A)
      → any p xs ≡ true
      → (x : A) × (p x ≡ true) × (contains x xs ≡ true)
  any-witness p [] h = absurd (cc)
  any-witness p (x ∷ xs) h = elim (Bool-cases (p x)) [
    | inl here ↦ (x, here, ground arith)
    | inr not_here ↦
        let (y, good, there) = any-witness p xs (ground arith) in (y, good, ground arith)
  ]

  pub any_of_contains :
      (p : A → Bool) (x : A) (xs : List A) → p x ≡ true → contains x xs ≡ true → any p xs ≡ true
  any_of_contains p x [] good h = absurd (cc)
  any_of_contains p x (y ∷ ys) good h = ground (arith, any_of_contains p x ys)

  pub contains-keep_if :
      (p : A → Bool) (x : A) (xs : List A) → contains x (keep_if p xs) ≡ (contains x xs && p x)
  contains-keep_if p x [] = refl
  contains-keep_if p x (y ∷ ys) = ground (arith, contains-keep_if p x ys)

module _ {ℓ} {A B : Type ℓ} where
  both : (a c : A) (b d : B) → Dec (a ≡ c) → Dec (b ≡ d) → Dec (◌≡◌ {A = A × B} (a, b) (c, d))
  both a c b d (yes p) (yes q) = yes (λ i. (p i, q i))
  both a c b d (yes p) (no q) = no (λ h. q (λ i. (h i).1))
  both a c b d (no p) _ = no (λ h. p (λ i. (h i).0))

  unfoldable pub pair_discrete : Discrete A → Discrete B → Discrete (A × B)
  unfolding both
  pair_discrete dec_a dec_b (a, b) (c, d) = both a c b d (dec_a a c) (dec_b b d)

instance abbrev pub pair_eq {ℓ} : {A B : Type ℓ} ⦃a : Eq A⦄ ⦃b : Eq B⦄ → Eq (A × B)
pair_eq ⦃a⦄ ⦃b⦄ = record { dec = pair_discrete a.dec b.dec }
