-- ===== src/Harness/Interceptor.antt =====
-- The call-time gate of harness/interceptor.py.
--
-- The connector is code of a deployment: `call` stands for it, and answers `none` where it raises.
-- The turn's subject, the scope provider and the runtime id are what the caller binds. The clock
-- readings of the events are not modelled.
pub mod Gate
pub mod Safety
use agents_system.Prelude.{
  ◌==◌, Bool, true, false, ◌||◌, ◌&&◌, not, Option, none, some, String, string_eq, List, [], ◌∷◌,
  Result, ok, err, ◌>>=◌, ◌>>◌, if◌then◌else◌, any, keep_if,
}
use mathlib.Core.List.{foldl}
use agents_system.Dict
use agents_system.Dict.{Dict}
use agents_system.Permissions.Base.{Class, class_eq, covers, PermissionError}
use agents_system.Permissions.Registry.{Registry, resolve}
use agents_system.Permissions.ToolRules.{is_dangerous}
use agents_system.MemoryPolicy.{
  Declared, MemoryPolicy, MemoryPolicyError, from_mapping, allows_read, allows_write,
}
use agents_system.Harness.Tools.{ToolSpec}

pub data Reason : Type 0 where
  not_in_surface revalidation_required permission_revoked : Reason
  memory_policy_invalid user_memory_disabled memory_read_denied memory_write_denied : Reason
  subject_required scope_unavailable scope_requires_async_connector : Reason

-- `PolicyViolation`, or another exception that leaves `intercept`
pub data Failure : Type 0 where
  blocked : Reason → Failure
  unknown_permission : PermissionError → Failure
  unknown_scope : MemoryPolicyError → Failure
  connector_raised : Failure

-- the parts of `EquippedRuntime` that a call reads
pub record Runtime : Type 0 where
  pub tools : List ToolSpec
  pub deploy_grant_ceiling : List Class
  pub memory_policy : Declared

-- the handle of `ScopeProvider.scope`
pub record Handle : Type 0 where
  pub runtime_id : String
  pub subject_key : String

-- what the caller of a turn passes in, and the subject bound to the turn
pub record Caller : Type 0 where
  pub current_permissions : Option (List String)
  pub has_scope_provider : Bool
  pub runtime_id : Option String
  pub subject : Option String

-- `_is_sensitive`
unfoldable pub is_sensitive : ToolSpec → Bool
is_sensitive spec = is_dangerous spec.tier || spec.always_revalidate

-- `{t.name: t for t in runtime.tools}`
unfoldable pub surface : List ToolSpec → Dict String ToolSpec
surface = foldl (λ d t. Dict.put t.name t d) []

unfoldable pub find_tool : String → Runtime → Result Failure ToolSpec
find_tool name runtime = elim (Dict.get name (surface runtime.tools)) [
  | some spec ↦ ok spec
  | none ↦ err (blocked not_in_surface)
]

-- `current_classes`: unknown names are passed over
unfoldable pub classes_of : Registry → List String → List Class
classes_of r [] = []
classes_of r (name ∷ names) =
    let rest = classes_of r names in elim (resolve name r) [ ok cls ↦ cls ∷ rest | err _ ↦ rest ]

-- `ceiling & current`
unfoldable pub intersect : List Class → List Class → List Class
intersect ceiling current = keep_if (λ c. any (λ d. c == d) current) ceiling

-- `not any(covers(granted_cls, resolve(name)) for ...)`; the lookup happens only if there is a class
unfoldable pub is_missing : Registry → List Class → String → Result Failure Bool
is_missing r [] name = ok true
is_missing r (g ∷ gs) name = elim (resolve name r) [
  | ok cls ↦ ok (not (any (λ granted. covers granted cls) (g ∷ gs)))
  | err e ↦ err (unknown_permission e)
]

-- whether the list `missing` has an entry
unfoldable pub any_missing : Registry → List Class → List String → Result Failure Bool
any_missing r effective [] = ok false
any_missing r effective (name ∷ names) = do
  m ← is_missing r effective name
  more ← any_missing r effective names
  ok (m || more)

unfoldable pub refuse_if : Bool → Reason → Result Failure (Unit {0})
refuse_if true reason = err (blocked reason)
refuse_if false reason = ok tt

-- the revalidation of a sensitive tool; its result is `revalidated`
unfoldable pub revalidate :
    Registry → Runtime → Option (List String) → ToolSpec → Result Failure Bool
unfolding refuse_if
revalidate r runtime permissions spec = elim (is_sensitive spec) [
  | false ↦ ok false
  | true ↦ elim permissions [
    | none ↦ err (blocked revalidation_required)
    | some held ↦ do
      missing ←
          any_missing r (intersect runtime.deploy_grant_ceiling (classes_of r held))
            spec.required_permissions
      refuse_if missing permission_revoked
      ok true
  ]
]

unfoldable pub is_read : Option String → Bool
is_read none = false
is_read (some a) = a == "read" || a == "readwrite"

unfoldable pub is_write : Option String → Bool
is_write none = false
is_write (some a) = a == "write" || a == "readwrite"

unfoldable pub or_raise : Result MemoryPolicyError Bool → Result Failure Bool
or_raise (ok b) = ok b
or_raise (err e) = err (unknown_scope e)

unfoldable pub check_access :
    Bool → Result MemoryPolicyError Bool → Reason → Result Failure (Unit {0})
unfolding refuse_if or_raise
check_access false allowed reason = ok tt
check_access true allowed reason = do a ← or_raise allowed; refuse_if (not a) reason

-- `_memory_denial`
unfoldable pub memory_denial : ToolSpec → Declared → Result Failure (Unit {0})
unfolding refuse_if is_read is_write check_access
memory_denial spec raw = elim (from_mapping raw) [
  | err _ ↦ err (blocked memory_policy_invalid)
  | ok policy ↦ do
    refuse_if (spec.needs_user_memory && not policy.user_memory) user_memory_disabled
    check_access (is_read spec.memory_access) (allows_read policy spec.memory_scope)
        memory_read_denied
    check_access (is_write spec.memory_access) (allows_write policy spec.memory_scope)
        memory_write_denied
]

unfoldable pub touches_memory : ToolSpec → Bool
touches_memory spec = elim spec.memory_access [ some _ ↦ true | none ↦ spec.needs_user_memory ]

unfoldable pub memory_gate : ToolSpec → Declared → Result Failure (Unit {0})
memory_gate spec raw = elim (touches_memory spec) [ false ↦ ok tt | true ↦ memory_denial spec raw ]

unfoldable pub scope_for : Caller → Bool → String → Result Failure Handle
scope_for caller is_async key = elim caller.has_scope_provider [
  | false ↦ err (blocked scope_unavailable)
  | true ↦ elim caller.runtime_id [
    | none ↦ err (blocked scope_unavailable)
    | some runtime_id ↦
        if is_async
        then ok (record { runtime_id = runtime_id; subject_key = key })
        else err (blocked scope_requires_async_connector)
  ]
]

-- the handle of a subject-scoped tool
unfoldable pub subject_gate : Caller → ToolSpec → Result Failure (Option Handle)
subject_gate caller spec = elim spec.subject_scoped [
  | false ↦ ok none
  | true ↦ elim caller.subject [
    | none ↦ err (blocked subject_required)
    | some key ↦ do handle ← scope_for caller spec.is_async key; ok (some handle)
  ]
]

-- what the policy lets a call do
pub record Grant : Type 0 where
  pub spec : ToolSpec
  pub revalidated : Bool
  pub handle : Option Handle

unfoldable pub gate : Registry → Runtime → Caller → String → Result Failure Grant
gate r runtime caller tool_name = do
  spec ← find_tool tool_name runtime
  revalidated ← revalidate r runtime caller.current_permissions spec
  memory_gate spec runtime.memory_policy
  handle ← subject_gate caller spec
  ok (record { spec = spec; revalidated = revalidated; handle = handle })

-- the audit events of D-007
pub data Event : Type 0 where
  call_blocked : String → Reason → Event
  call_attempted : String → Bool → Bool → Event

pub record CallResult (Output : Type 0) : Type 0 where
  pub tool_name : String
  pub output : Output
  pub revalidated : Bool

unfoldable pub events_of : String → Failure → List Event
events_of tool_name (blocked reason) = call_blocked tool_name reason ∷ []
events_of tool_name _ = []

unfoldable pub intercept {ℓ} :
    {Input : Type ℓ} {Output : Type 0}
    → (ToolSpec → Input → Option Handle → Option Output)
    → Registry
    → Runtime
    → Caller
    → String
    → Input
    → Result Failure (CallResult Output) × List Event
unfolding events_of
intercept call r runtime caller tool_name input = elim (gate r runtime caller tool_name) [
  | err failure ↦ (err failure, events_of tool_name failure)
  | ok grant ↦ elim (call grant.spec input grant.handle) [
    | none ↦ (err connector_raised, [])
    | some output ↦ (
      ok (record { tool_name = tool_name; output = output; revalidated = grant.revalidated }),
      call_attempted tool_name (is_sensitive grant.spec) grant.revalidated ∷ [],
    )
  ]
]
