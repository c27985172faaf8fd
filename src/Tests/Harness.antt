-- ===== src/Tests/Harness.antt =====
-- Calls through the interceptor, memory policies, and tool registries.
use agents_system.Prelude.{
  ℕ, suc, Option, none, some, String, string_eq, String_discrete, ℕ_discrete, List, [], ◌∷◌, ok,
  err, ◌≡◌, refl, true, false, arith, ◌↔◌, ◌≤◌, All,
}
use agents_system.Dict
use agents_system.Dict.{Dict}
use agents_system.Permissions.Base.{t2, tier_rank, tier_of, Class_discrete, is_subclass, covers}
use agents_system.Permissions.Registry.{Registry, resolve}
use agents_system.Permissions.ToolRules.{is_dangerous}
use agents_system.Permissions.Builtins.{send}
use agents_system.MemoryPolicy
use agents_system.MemoryPolicy.{
  Raw, Declared, undeclared, mapping, boolean, local, team, MemoryPolicy, canonical, index,
  allows_read, allows_write, allows_user_memory, persists_conversation, is_field,
}
use agents_system.Harness.Tools.{ToolSpec, ToolRegistry}
use agents_system.Harness.Interceptor.{
  revalidation_required, blocked, Runtime, Handle, Caller, is_sensitive, surface, find_tool,
  classes_of, intersect, is_missing, any_missing, revalidate, touches_memory, memory_gate,
  scope_for, subject_gate, Grant, gate, CallResult, intercept,
}
use agents_system.Harness.Interceptor.Gate.{IsCovered, revalidate_iff}
use agents_system.Harness.Interceptor.Safety.{IsPermitted, intercept-IsPermitted}
use agents_system.Tests.Permissions.{small}

runs : Unit {0}
unfolding tier_rank tier_of is_subclass covers resolve Dict.get Dict.put Class_discrete
    String_discrete ℕ_discrete is_dangerous is_sensitive surface find_tool classes_of intersect
    is_missing any_missing revalidate touches_memory memory_gate scope_for subject_gate gate
    intercept
runs = tt

abbrev notify : ToolSpec
notify = record {
  name = "notify";
  required_permissions = "send:proactive" ∷ [];
  is_async = true;
  tier = t2;
  always_revalidate = false;
  subject_scoped = true;
  needs_user_memory = false;
  memory_access = none;
  memory_scope = "local";
}

abbrev runtime : Runtime
runtime = record {
  tools = notify ∷ [];
  deploy_grant_ceiling = send ∷ [];
  memory_policy = undeclared;
}

abbrev caller : Caller
caller = record {
  current_permissions = some ("send:any" ∷ []);
  has_scope_provider = true;
  runtime_id = some "sales";
  subject = some "participant:7";
}

abbrev registry : Registry
registry = record small { by_name = ("send:any", send) ∷ small.by_name }

abbrev echo : ToolSpec → ℕ → Option Handle → Option ℕ
echo spec input handle = some (suc input)

abbrev answered : CallResult ℕ
answered = record { tool_name = "notify"; output = 6; revalidated = true }

test_intercept : (intercept echo registry runtime caller "notify" 5).0 ≡ ok answered
unfolding runs
test_intercept = refl

intercept-IsPermitted_example :
    (grant : Grant) × IsPermitted registry runtime caller "notify" grant
    × (echo grant.spec 5 grant.handle ≡ some 6)
intercept-IsPermitted_example =
    intercept-IsPermitted echo registry runtime caller "notify" 5 answered test_intercept

abbrev anonymous : Caller
anonymous = record caller { current_permissions = none }

test_blocked :
    (intercept echo registry runtime anonymous "notify" 5).0 ≡ err (blocked revalidation_required)
unfolding runs
test_blocked = refl

notify-is_sensitive : is_sensitive notify ≡ true
unfolding runs
notify-is_sensitive = refl

revalidate_iff_example :
    (revalidate registry runtime caller.current_permissions notify ≡ ok true) ↔ (
      (held : List String) × (caller.current_permissions ≡ some held)
      × All (IsCovered registry runtime.deploy_grant_ceiling held) notify.required_permissions)
revalidate_iff_example =
    revalidate_iff registry runtime caller.current_permissions notify notify-is_sensitive

abbrev opted_in : Dict String Raw
opted_in = ("user_memory", boolean true) ∷ []

memory_runs : Unit {0}
unfolding runs index canonical MemoryPolicy.normalize_scope MemoryPolicy.scope_named
    MemoryPolicy.from_mapping MemoryPolicy.from_fields MemoryPolicy.scope_field
    MemoryPolicy.bool_field MemoryPolicy.get_default is_field allows_user_memory
    persists_conversation allows_read allows_write
memory_runs = tt

opted_in_allows : allows_user_memory (mapping opted_in) ≡ true
unfolding memory_runs
opted_in_allows = refl

opted_in_persists : persists_conversation (mapping opted_in) ≡ true
unfolding memory_runs
opted_in_persists = refl

abbrev team_policy : MemoryPolicy
team_policy = record {
  read_scope = team;
  write_scope = local;
  persist_conversation = true;
  user_memory = false;
}

session_is_local : canonical "session" ≡ ok local
unfolding memory_runs
session_is_local = refl

team_is_team : canonical "team" ≡ ok team
unfolding memory_runs
team_is_team = refl

local-le-team : index local ≤ index team
unfolding index
local-le-team = omega arith

abbrev no_tools : ToolRegistry
no_tools = []
