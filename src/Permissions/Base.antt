-- ===== src/Permissions/Base.antt =====
-- The permission classes: `Tier` of harness/registry.py, `tier_rank` and
-- `Permission.__init_subclass__` of permissions/base.py, the errors of permissions/errors.py, and
-- `covers` of permissions/permission_registry.py.
--
-- A class object is a value with the identity that Python gives it, its parent and its tier. The
-- abstract root `Permission` has no tier: where it may stand, a class is an `Option`, and `none` is
-- the root. Every class of the repository has one parent, so `__mro__[1]` is the parent.
pub mod Covers
use agents_system.Prelude.{
  ℕ, Eq, ◌==◌, Bool, true, false, ◌&&◌, ◌||◌, Option, none, some, String, Result, ok, err,
  if◌then◌else◌, ltb, leb, ℕ_discrete,
}

pub data Tier : Type 0 where
  t0 t1 t2 t3 : Tier

-- `_RANK` and `tier_rank`
unfoldable pub tier_rank : Tier → ℕ
tier_rank t0 = 0
tier_rank t1 = 1
tier_rank t2 = 2
tier_rank t3 = 3

-- A class declared directly under the root, or under another class. The number is the identity.
pub data Class : Type 0 where
  top : ℕ → Tier → Class
  sub : ℕ → Class → Tier → Class

unfoldable pub Class_discrete : Discrete Class
Class_discrete = hlevel ℕ_discrete

instance abbrev pub class_eq : Eq Class
class_eq = record { dec = Class_discrete }

unfoldable pub tier_of : Class → Tier
tier_of (top _ t) = t
tier_of (sub _ _ t) = t

pub data PermissionError : Type 0 where
  unknown_name : String → PermissionError
  unknown_class : Class → PermissionError
  name_taken : String → Class → Class → PermissionError
  class_taken : String → Class → String → PermissionError
  root_registered : PermissionError
  no_tier : ℕ → PermissionError
  not_a_tier : ℕ → PermissionError
  below_parent : ℕ → Tier → Tier → PermissionError
  tier_mismatch : String → Tier → String → Class → PermissionError
  floor_violation : String → Tier → PermissionError

-- The `tier` attribute in a class body: a member of `Tier`, or anything else.
pub data Declared : Type 0 where
  member : Tier → Declared
  other : Declared

-- `Permission.__init_subclass__`, for the class object with identity `id` under `parent`.
unfoldable pub init_subclass : ℕ → Option Class → Option Declared → Result PermissionError Class
init_subclass id none none = err (no_tier id)
init_subclass id (some parent) none = ok (sub id parent (tier_of parent))
init_subclass id none (some (member own)) = ok (top id own)
init_subclass id (some parent) (some (member own)) =
    if ltb (tier_rank own) (tier_rank (tier_of parent))
    then err (below_parent id own (tier_of parent))
    else ok (sub id parent own)
init_subclass id parent (some other) = err (not_a_tier id)

-- `issubclass(c, d)`
unfoldable pub is_subclass : Class → Class → Bool
is_subclass (top id t) d = top id t == d
is_subclass (sub id parent t) d = sub id parent t == d || is_subclass parent d

unfoldable pub covers : Class → Class → Bool
covers granted required =
    is_subclass required granted && leb (tier_rank (tier_of required)) (tier_rank (tier_of granted))
