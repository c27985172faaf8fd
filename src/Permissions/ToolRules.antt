-- ===== src/Permissions/ToolRules.antt =====
-- R2a and R2b: `evaluate_tool_spec` of permissions/permission_registry.py, which every
-- `ToolSpec` passes when it is built.
pub mod Sound
use agents_system.Prelude.{
  ◌==◌, Bool, true, false, ◌&&◌, not, String, List, [], ◌∷◌, Result, ok, err, ◌>>=◌, ◌>>◌,
  if◌then◌else◌, ltb, leb, any,
}
use agents_system.Permissions.Base.{
  Tier, t0, t1, t2, t3, tier_rank, Class, tier_of, PermissionError, tier_mismatch, floor_violation,
}
use agents_system.Permissions.Registry.{Registry, resolve}

-- `resolved`: each required name with its class, or the first lookup's error
unfoldable pub resolve_all : List String → Registry → Result PermissionError (List (String × Class))
resolve_all [] r = ok []
resolve_all (name ∷ names) r = do
  cls ← resolve name r
  rest ← resolve_all names r
  ok ((name, cls) ∷ rest)

-- R2a, the loop over `resolved`
unfoldable pub check_ceiling :
    String → Tier → List (String × Class) → Result PermissionError (Unit {0})
check_ceiling tool tier [] = ok tt
check_ceiling tool tier ((name, cls) ∷ rest) =
    if ltb (tier_rank tier) (tier_rank (tier_of cls))
    then err (tier_mismatch tool tier name cls)
    else check_ceiling tool tier rest

-- `tier in (Tier.T2, Tier.T3)`
unfoldable pub is_dangerous : Tier → Bool
is_dangerous t2 = true
is_dangerous t3 = true
is_dangerous _ = false

-- R2b
unfoldable pub check_floor :
    String → Tier → List (String × Class) → Result PermissionError (Unit {0})
unfolding is_dangerous
check_floor tool tier resolved =
    if is_dangerous tier && not (any (λ p. leb (tier_rank tier) (tier_rank (tier_of p.1))) resolved)
    then err (floor_violation tool tier)
    else ok tt

unfoldable pub evaluate_tool_spec :
    String → Tier → List String → Registry → Result PermissionError (Unit {0})
evaluate_tool_spec tool tier required r = do
  resolved ← resolve_all required r
  check_ceiling tool tier resolved
  check_floor tool tier resolved
