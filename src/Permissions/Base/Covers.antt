-- ===== src/Permissions/Base/Covers.antt =====
-- R1 and R3: tiers along the subclasses, and `covers` of permissions/permission_registry.py.
use agents_system.Prelude.{ℕ, ◌≤◌, true, Option, none, some, ok, ◌≡◌, ◌↔◌, arith}
use agents_system.Permissions.Base.{
  Tier, tier_rank, Class, top, sub, tier_of, Declared, member, other, init_subclass, is_subclass,
  covers, class_eq,
}

-- The classes that class statements can create: each is accepted by `__init_subclass__`.
pub data IsCreated : Class → Type 0 where
  created_top :
      (id : ℕ) (own : Option Declared) (c : Class) → init_subclass id none own ≡ ok c → IsCreated c
  created_sub :
      (id : ℕ) (own : Option Declared) (parent c : Class)
      → IsCreated parent
      → init_subclass id (some parent) own ≡ ok c
      → IsCreated c

abbrev IsMonotone : Class → Type 0
IsMonotone (top _ _) = Unit
IsMonotone (sub _ parent t) = (tier_rank (tier_of parent) ≤ tier_rank t) × IsMonotone parent

top-IsMonotone :
    (id : ℕ) (own : Option Declared) (c : Class) → init_subclass id none own ≡ ok c → IsMonotone c
unfolding init_subclass
top-IsMonotone id none c h = absurd (cc)
top-IsMonotone id (some (member t)) c h = ground arith
top-IsMonotone id (some other) c h = absurd (cc)

sub-IsMonotone :
    (id : ℕ) (parent : Class) (own : Option Declared) (c : Class)
    → IsMonotone parent
    → init_subclass id (some parent) own ≡ ok c
    → IsMonotone c
unfolding init_subclass
sub-IsMonotone id parent none c m h = ground arith
sub-IsMonotone id parent (some (member t)) c m h = ground arith
sub-IsMonotone id parent (some other) c m h = absurd (cc)

IsCreated-IsMonotone : {c : Class} → IsCreated c → IsMonotone c
IsCreated-IsMonotone (created_top id own c h) = top-IsMonotone id own c h
IsCreated-IsMonotone (created_sub id own parent c p h) =
    sub-IsMonotone id parent own c (IsCreated-IsMonotone p) h

is_subclass-rank-le :
    (c d : Class)
    → IsMonotone c
    → is_subclass c d ≡ true
    → tier_rank (tier_of d) ≤ tier_rank (tier_of c)
unfolding is_subclass tier_of
is_subclass-rank-le (top id t) d m h = ground arith
is_subclass-rank-le (sub id p t) d m h = ground (arith, is_subclass-rank-le p d)

pub tier_rank-injective : (s t : Tier) → tier_rank s ≡ tier_rank t → s ≡ t
unfolding tier_rank
tier_rank-injective s t h = ground arith

-- A subclass created by class statements never has a lower tier than its ancestor (R1).
pub is_subclass-le :
    (c d : Class)
    → IsCreated c
    → is_subclass c d ≡ true
    → tier_rank (tier_of d) ≤ tier_rank (tier_of c)
is_subclass-le c d created h = is_subclass-rank-le c d (IsCreated-IsMonotone created) h

-- A grant covers a required permission exactly when the required class is the granted one or a
-- descendant of it, and has the same tier: an escalated descendant needs its own grant (R3).
pub covers_iff :
    (granted required : Class)
    → IsCreated required
    → (covers granted required ≡ true)
      ↔ ((is_subclass required granted ≡ true) × (tier_of required ≡ tier_of granted))
unfolding covers
covers_iff granted required created =
    (λ h. (ground arith, tier_rank-injective _ _ (ground (arith, rank-le h))), λ h. ground (arith))
  where
    rank-le :
        covers granted required ≡ true → tier_rank (tier_of granted) ≤ tier_rank (tier_of required)
    rank-le h = is_subclass-le required granted created (ground arith)

is_subclass_trans :
    (c d e : Class) → is_subclass c d ≡ true → is_subclass d e ≡ true → is_subclass c e ≡ true
unfolding is_subclass
is_subclass_trans (top id t) d e h k = ground arith
is_subclass_trans (sub id p t) d e h k = ground (arith, is_subclass_trans p d e)

-- Coverage is transitive: what a covered class covers, the grant covers.
pub covers_trans : (a b c : Class) → covers a b ≡ true → covers b c ≡ true → covers a c ≡ true
unfolding covers
covers_trans a b c h k = ground (arith, is_subclass_trans c b a)
