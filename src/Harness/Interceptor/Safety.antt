-- ===== src/Harness/Interceptor/Safety.antt =====
-- What a call of harness/interceptor.py has passed, and what a blocked one leaves behind.
use agents_system.Prelude.{
  Bool, true, false, Option, none, some, String, string_eq, List, Result, ok, ◌≡◌, inl, inr, arith,
  All, Result-cases, Option-cases,
}
use agents_system.Dict
use agents_system.Dict.{Dict}
use agents_system.Permissions.Registry.{Registry}
use agents_system.MemoryPolicy.{
  MemoryPolicy, MemoryPolicyError, from_mapping, allows_read, allows_write, Declared,
}
use agents_system.Harness.Tools.{ToolSpec}
use agents_system.Harness.Interceptor.{
  Reason, Runtime, Handle, Caller, is_sensitive, surface, find_tool, revalidate, is_read, is_write,
  memory_denial, touches_memory, memory_gate, scope_for, subject_gate, Grant, gate, CallResult,
  intercept, check_access,
}
use agents_system.Harness.Interceptor.Gate.{IsCovered, revalidate_iff, revalidate-is_sensitive}

-- The role's memory policy parses and allows what the tool touches.
pub record IsAllowed (spec : ToolSpec) (policy : MemoryPolicy) : Type 0 where
  pub facts : spec.needs_user_memory ≡ true → policy.user_memory ≡ true
  pub reads : is_read spec.memory_access ≡ true → allows_read policy spec.memory_scope ≡ ok true
  pub writes : is_write spec.memory_access ≡ true → allows_write policy spec.memory_scope ≡ ok true

check_access_of :
    (b : Bool) (allowed : Result MemoryPolicyError Bool) (reason : Reason)
    → check_access b allowed reason ≡ ok tt
    → b ≡ true
    → allowed ≡ ok true
unfolding check_access
check_access_of b allowed reason h e = ground arith

memory_denial-IsAllowed :
    (spec : ToolSpec) (raw : Declared)
    → memory_denial spec raw ≡ ok tt
    → (policy : MemoryPolicy) × (from_mapping raw ≡ ok policy) × IsAllowed spec policy
unfolding memory_denial
memory_denial-IsAllowed spec raw h = elim (Result-cases (from_mapping raw)) [
  | inr (e, failed) ↦ absurd (ground arith)
  | inl (policy, parsed) ↦ (policy, parsed, ground arith)
]

-- What the code checks before a connector runs with `grant`.
pub record IsPermitted (r : Registry) (runtime : Runtime) (caller : Caller) (tool_name : String)
    (grant : Grant) : Type 0 where
  pub in_surface : Dict.get tool_name (surface runtime.tools) ≡ some grant.spec
  pub sensitive : grant.revalidated ≡ is_sensitive grant.spec
  pub authorised :
      is_sensitive grant.spec ≡ true
      → (held : List String) × (caller.current_permissions ≡ some held)
        × All (IsCovered r runtime.deploy_grant_ceiling held) grant.spec.required_permissions
  pub memory :
      touches_memory grant.spec ≡ true
      → (policy : MemoryPolicy) × (from_mapping runtime.memory_policy ≡ ok policy)
        × IsAllowed grant.spec policy
  pub scoped :
      grant.spec.subject_scoped ≡ true
      → (runtime_id key : String) × (caller.runtime_id ≡ some runtime_id)
        × (caller.subject ≡ some key)
        × (grant.handle ≡ some (record { runtime_id = runtime_id; subject_key = key }))
  pub unscoped : grant.spec.subject_scoped ≡ false → grant.handle ≡ none

find_tool_of :
    (name : String) (runtime : Runtime) (spec : ToolSpec)
    → find_tool name runtime ≡ ok spec
    → Dict.get name (surface runtime.tools) ≡ some spec
unfolding find_tool
find_tool_of name runtime spec h = ground arith

memory_gate_of :
    (spec : ToolSpec) (raw : Declared)
    → memory_gate spec raw ≡ ok tt
    → touches_memory spec ≡ true
    → memory_denial spec raw ≡ ok tt
unfolding memory_gate
memory_gate_of spec raw h e = ground arith

subject_gate_scoped :
    (caller : Caller) (spec : ToolSpec) (handle : Option Handle)
    → subject_gate caller spec ≡ ok handle
    → spec.subject_scoped ≡ true
    → (runtime_id key : String) × (caller.runtime_id ≡ some runtime_id)
      × (caller.subject ≡ some key)
      × (handle ≡ some (record { runtime_id = runtime_id; subject_key = key }))
unfolding subject_gate scope_for
subject_gate_scoped caller spec handle h e = elim (Option-cases caller.subject) [
  | inl missing ↦ absurd (ground arith)
  | inr (key, bound) ↦ elim (Option-cases caller.runtime_id) [
    | inl missing ↦ absurd (ground arith)
    | inr (runtime_id, given) ↦ (runtime_id, key, given, bound, ground arith)
  ]
]

subject_gate_unscoped :
    (caller : Caller) (spec : ToolSpec) (handle : Option Handle)
    → subject_gate caller spec ≡ ok handle
    → spec.subject_scoped ≡ false
    → handle ≡ none
unfolding subject_gate
subject_gate_unscoped caller spec handle h e = ground arith

record Passed (r : Registry) (runtime : Runtime) (caller : Caller) (tool_name : String)
    (grant : Grant) : Type 0 where
  found : find_tool tool_name runtime ≡ ok grant.spec
  revalidation : revalidate r runtime caller.current_permissions grant.spec ≡ ok grant.revalidated
  memory : memory_gate grant.spec runtime.memory_policy ≡ ok tt
  subject : subject_gate caller grant.spec ≡ ok grant.handle

gate-Passed :
    (r : Registry) (runtime : Runtime) (caller : Caller) (tool_name : String) (grant : Grant)
    → gate r runtime caller tool_name ≡ ok grant
    → Passed r runtime caller tool_name grant
unfolding gate
gate-Passed r runtime caller tool_name grant h = elim (Result-cases (find_tool tool_name runtime)) [
  | inr (e, failed) ↦ absurd (ground arith)
  | inl (spec, found) ↦ ground arith
]

Passed-IsPermitted :
    (r : Registry) (runtime : Runtime) (caller : Caller) (tool_name : String) (grant : Grant)
    → Passed r runtime caller tool_name grant
    → IsPermitted r runtime caller tool_name grant
Passed-IsPermitted r runtime caller tool_name grant p = record {
  in_surface = find_tool_of tool_name runtime grant.spec p.found;
  sensitive = same;
  authorised = λ s. (revalidate_iff r runtime permissions grant.spec s).0 (ground (arith, same));
  memory = λ t. memory_denial-IsAllowed grant.spec raw (memory_gate_of grant.spec raw p.memory t);
  scoped = subject_gate_scoped caller grant.spec grant.handle p.subject;
  unscoped = subject_gate_unscoped caller grant.spec grant.handle p.subject;
}
  where
    open caller use {current_permissions as permissions}
    open runtime use {memory_policy as raw}

    same : grant.revalidated ≡ is_sensitive grant.spec
    same = revalidate-is_sensitive r runtime permissions grant.spec grant.revalidated p.revalidation

module _ {ℓ} {Input : Type ℓ} {Output : Type 0}
    (call : ToolSpec → Input → Option Handle → Option Output) where
  -- A call returns only what its connector answered under a grant that the policy permits: the tool
  -- is in the runtime's surface; a sensitive one is authorised within the deploy ceiling; the memory
  -- policy allows what it touches; a subject-scoped one gets the handle of the turn's own subject
  -- and runtime, and any other gets none.
  pub intercept-IsPermitted :
      (r : Registry) (runtime : Runtime) (caller : Caller) (tool_name : String) (input : Input)
      (result : CallResult Output)
      → (intercept call r runtime caller tool_name input).0 ≡ ok result
      → (grant : Grant) × IsPermitted r runtime caller tool_name grant
        × (call grant.spec input grant.handle ≡ some result.output)
  unfolding intercept
  intercept-IsPermitted r runtime caller tool_name input result h =
      elim (Result-cases (gate r runtime caller tool_name)) [
        | inr (e, failed) ↦ absurd (ground arith)
        | inl (grant, passed) ↦ (
          grant,
          Passed-IsPermitted r runtime caller tool_name grant
              (gate-Passed r runtime caller tool_name grant passed),
          ground arith,
        )
      ]
