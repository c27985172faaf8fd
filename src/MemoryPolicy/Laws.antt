-- ===== src/MemoryPolicy/Laws.antt =====
-- The decisions of memory_policy.py, over every declared policy.
use agents_system.Prelude.{
  ◌≤◌, Bool, true, false, not, none, some, String, string_eq, [], ok, ◌≡◌, ◌⊎◌, ◌≢◌, keep_if,
  String_discrete, refl, arith, Result-cases, inl, inr,
}
use agents_system.Dict
use agents_system.Dict.{Dict}
use agents_system.MemoryPolicy.{
  Scope, index, Raw, Declared, undeclared, mapping, malformed, MemoryPolicy, from_mapping,
  from_fields, canonical, allows_read, allows_write, allows_user_memory, persists_conversation,
  scope_field, bool_field, get_default, boolean, is_field, normalize_scope, scope_named,
}

-- A policy that allows a scope allows every narrower one, for reads and for writes.
pub allows_narrower :
    (p : MemoryPolicy) (narrow wide : String) (n w : Scope)
    → canonical narrow ≡ ok n
    → canonical wide ≡ ok w
    → index n ≤ index w
    → (allows_read p wide ≡ ok true → allows_read p narrow ≡ ok true)
      × (allows_write p wide ≡ ok true → allows_write p narrow ≡ ok true)
unfolding allows_read allows_write
allows_narrower p narrow wide n w hn hw le = (λ h. ground arith, λ h. ground arith)

record Parsed (d : Dict String Raw) (p : MemoryPolicy) : Type 0 where
  known : keep_if (λ k. not (is_field k)) (Dict.keys d) ≡ []
  persist : bool_field d "persist_conversation" true ≡ ok p.persist_conversation
  facts : bool_field d "user_memory" false ≡ ok p.user_memory
  reads : scope_field d "read_scope" ≡ ok p.read_scope
  writes : scope_field d "write_scope" ≡ ok p.write_scope

from_fields-Parsed : (d : Dict String Raw) (p : MemoryPolicy) → from_fields d ≡ ok p → Parsed d p
unfolding from_fields
from_fields-Parsed d p h = ground arith

bool_field_of :
    (d : Dict String Raw) (field : String) (default b : Bool)
    → bool_field d field default ≡ ok b
    → (Dict.get field d ≡ some (boolean b)) ⊎ ((Dict.get field d ≡ none) × (b ≡ default))
unfolding bool_field get_default
bool_field_of d field default b h = ground arith

-- Facts about a user are kept only where the role declares a mapping of known fields that sets
-- `user_memory` to true.
pub user_memory_opt_in :
    (raw : Declared)
    → allows_user_memory raw ≡ true
    → (d : Dict String Raw) × (raw ≡ mapping d)
      × (Dict.get "user_memory" d ≡ some (boolean true))
      × (keep_if (λ k. not (is_field k)) (Dict.keys d) ≡ [])
unfolding allows_user_memory from_mapping
user_memory_opt_in undeclared h = absurd (
    unfold from_fields bool_field scope_field normalize_scope scope_named get_default Dict.get
      String_discrete in
    cc)
user_memory_opt_in malformed h = absurd (cc)
user_memory_opt_in (mapping d) h = elim (Result-cases (from_fields d)) [
  | inr (e, failed) ↦ absurd (ground arith)
  | inl (p, parsed) ↦
      let q = from_fields-Parsed d p parsed in
      let on : p.user_memory ≡ true = ground arith in
      (d, refl, ground (arith, bool_field_of d "user_memory" false p.user_memory q.facts), q.known)
]

-- A conversation is persisted only where no policy is declared, or a mapping of known fields leaves
-- `persist_conversation` out or sets it to true.
pub persist_declared :
    (raw : Declared)
    → persists_conversation raw ≡ true
    → (raw ≡ undeclared)
      ⊎ ((d : Dict String Raw) × (raw ≡ mapping d)
          × (Dict.get "persist_conversation" d ≢ some (boolean false))
          × (keep_if (λ k. not (is_field k)) (Dict.keys d) ≡ []))
unfolding persists_conversation from_mapping
persist_declared undeclared h = inl refl
persist_declared malformed h = absurd (cc)
persist_declared (mapping d) h = elim (Result-cases (from_fields d)) [
  | inr (e, failed) ↦ absurd (ground arith)
  | inl (p, parsed) ↦
      let q = from_fields-Parsed d p parsed in
      let on : p.persist_conversation ≡ true = ground arith in
      inr (
        d,
        refl,
        λ off.
            ground
              (arith, bool_field_of d "persist_conversation" true p.persist_conversation q.persist),
        q.known,
      )
]
