-- ===== src/Tests/Permissions.antt =====
-- Permission classes, the registry and the tool rules on small inputs.
use agents_system.Prelude.{
  none, some, string_eq, String_discrete, ℕ_discrete, [], ◌∷◌, Result, ok, err, ◌≡◌, refl, true,
  false, ◌↔◌, All, Some,
}
use agents_system.Dict
use agents_system.Permissions.Base.{
  t0, t1, t2, tier_rank, tier_of, Class, sub, class_eq, Class_discrete, init_subclass, is_subclass,
  covers, PermissionError, member, tier_mismatch,
}
use agents_system.Permissions.Base.Covers.{IsCreated, created_top, created_sub, covers_iff}
use agents_system.Permissions.ToolRules.{
  evaluate_tool_spec, is_dangerous, resolve_all, check_ceiling, check_floor,
}
use agents_system.Permissions.ToolRules.Sound.{IsWithin, Reaches, evaluate_tool_spec_iff}
use agents_system.Permissions.Registry.Consistent.{
  IsConsistent, IsConsistent-empty, register-IsConsistent,
}
use agents_system.Permissions.Registry.{
  Registry, empty, register, register_locked, register_checked, get_or_register, resolve, reverse,
}
use agents_system.Permissions.Builtins.{
  read, send, read_files, build_resource_class, resource, register_resources, registered_builtins,
}

runs : Unit {0}
unfolding tier_rank tier_of init_subclass is_subclass covers register get_or_register resolve
    reverse register_locked register_checked build_resource_class resource register_resources
    registered_builtins Dict.get Dict.put Class_discrete String_discrete ℕ_discrete
runs = tt

test_covers : covers read (sub 9 read t0) ≡ true
unfolding runs
test_covers = refl

test_escalated : covers read read_files ≡ false
unfolding runs
test_escalated = refl

abbrev pub proactive : Class
proactive = sub 8 send t2

-- A registry that holds one wire name.
abbrev pub small : Registry
small = record {
  by_name = ("send:proactive", proactive) ∷ [];
  by_class = (proactive, "send:proactive") ∷ [];
}

test_register : register (some proactive) "send:proactive" empty ≡ ok small
unfolding runs
test_register = refl

-- The shipped table registers without a collision, and `read:files` keeps its escalated class.
registered : Result PermissionError Registry → Result PermissionError Class
registered (ok r) = resolve "read:files" r
registered (err e) = err e

test_builtins : registered registered_builtins ≡ ok read_files
unfolding runs registered
test_builtins = refl

small-IsConsistent : IsConsistent small
unfolding runs
small-IsConsistent =
    register-IsConsistent (some proactive) "send:proactive" empty small IsConsistent-empty
      test_register

register-IsConsistent_example : IsConsistent small
register-IsConsistent_example =
    register-IsConsistent (some proactive) "send:proactive" empty small IsConsistent-empty
      test_register

abbrev first_factory : Unit {0} → Result PermissionError Class
first_factory _ = build_resource_class 8 send none

abbrev second_factory : Unit {0} → Result PermissionError Class
second_factory _ = build_resource_class 9 send none

created : get_or_register "send:proactive" first_factory empty ≡ ok (proactive, small)
unfolding runs
created = refl

proactive-IsCreated : IsCreated proactive
unfolding runs
proactive-IsCreated =
    created_sub 8 none send proactive (created_top 2 (some (member t2)) send refl) refl

covers_iff_example :
    (covers send proactive ≡ true)
    ↔ ((is_subclass proactive send ≡ true) × (tier_of proactive ≡ tier_of send))
covers_iff_example = covers_iff send proactive proactive-IsCreated

built : build_resource_class 8 send none ≡ ok proactive
unfolding runs
built = refl

evaluate_tool_spec_iff_example :
    (evaluate_tool_spec "notify" t2 ("send:proactive" ∷ []) small ≡ ok tt) ↔ (
      All (IsWithin t2 small) ("send:proactive" ∷ [])
      × (is_dangerous t2 ≡ true → Some (Reaches t2 small) ("send:proactive" ∷ [])))
evaluate_tool_spec_iff_example = evaluate_tool_spec_iff t2 small "notify" ("send:proactive" ∷ [])

test_ceiling :
    evaluate_tool_spec "notify" t1 ("send:proactive" ∷ []) small
    ≡ err (tier_mismatch "notify" t1 "send:proactive" proactive)
unfolding runs evaluate_tool_spec resolve_all check_ceiling check_floor
test_ceiling = refl
