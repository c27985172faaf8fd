-- ===== src/MemoryPolicy.antt =====
-- `memory_policy` of a role: memory_policy.py. A value of a declared policy is text, a Boolean or
-- something else; the texts of the errors are not modelled.
pub mod Laws
use agents_system.Prelude.{
  ℕ, suc, ◌==◌, Bool, true, false, ◌&&◌, ◌||◌, not, Option, none, some, String, string_eq, List, [],
  ◌∷◌, Result, ok, err, ◌>>=◌, ◌>>◌, if◌then◌else◌, leb, keep_if,
}
use agents_system.Dict
use agents_system.Dict.{Dict}

-- `SCOPES`, from narrowest to widest
pub data Scope : Type 0 where
  local team org : Scope

-- `SCOPES.index`
unfoldable pub index : Scope → ℕ
index local = 0
index team = 1
index org = 2

pub data Raw : Type 0 where
  text : String → Raw
  boolean : Bool → Raw
  other : Raw

pub data MemoryPolicyError : Type 0 where
  not_a_mapping : MemoryPolicyError
  unknown_fields : List String → MemoryPolicyError
  not_a_bool : String → MemoryPolicyError
  not_a_scope : String → MemoryPolicyError
  unknown_scope : MemoryPolicyError

-- `_ALIASES` and `SCOPES`, in one lookup
unfoldable pub scope_named : String → Option Scope
scope_named s =
    if s == "local" || s == "session"
    then some local
    else if s == "team"
    then some team
    else if s == "org" || s == "deployment"
    then some org
    else none

unfoldable pub normalize_scope : Raw → Option Scope
unfolding scope_named
normalize_scope (text s) = scope_named s
normalize_scope (boolean _) = none
normalize_scope other = none

-- What a role declares: nothing, a mapping, or something that is no mapping.
pub data Declared : Type 0 where
  undeclared : Declared
  mapping : Dict String Raw → Declared
  malformed : Declared

-- `_FIELDS`
unfoldable pub is_field : String → Bool
is_field s =
    s == "read_scope" || s == "write_scope" || s == "persist_conversation" || s == "user_memory"

-- `raw.get(field, default)`
unfoldable pub get_default : String → Raw → Dict String Raw → Raw
get_default field default raw = elim (Dict.get field raw) [ some value ↦ value | none ↦ default ]

-- `_scope`
unfoldable pub scope_field : Dict String Raw → String → Result MemoryPolicyError Scope
scope_field raw field = elim (normalize_scope (get_default field (text "local") raw)) [
  | some scope ↦ ok scope
  | none ↦ err (not_a_scope field)
]

-- the checks of `persist_conversation` and `user_memory`
unfoldable pub bool_field : Dict String Raw → String → Bool → Result MemoryPolicyError Bool
bool_field raw field default = elim (get_default field (boolean default) raw) [
  | boolean b ↦ ok b
  | text _ ↦ err (not_a_bool field)
  | other ↦ err (not_a_bool field)
]

-- `_canonical`
unfoldable pub canonical : String → Result MemoryPolicyError Scope
canonical s = elim (normalize_scope (text s)) [ some scope ↦ ok scope | none ↦ err unknown_scope ]

pub record MemoryPolicy : Type 0 where
  pub read_scope : Scope
  pub write_scope : Scope
  pub persist_conversation : Bool
  pub user_memory : Bool

unfoldable pub from_fields : Dict String Raw → Result MemoryPolicyError MemoryPolicy
from_fields raw = elim (keep_if (λ k. not (is_field k)) (Dict.keys raw)) [
  | [] ↦ do
    persist ← bool_field raw "persist_conversation" true
    user_memory ← bool_field raw "user_memory" false
    read_scope ← scope_field raw "read_scope"
    write_scope ← scope_field raw "write_scope"
    ok (record {
      read_scope = read_scope;
      write_scope = write_scope;
      persist_conversation = persist;
      user_memory = user_memory;
    })
  | k ∷ ks ↦ err (unknown_fields (k ∷ ks))
]

unfoldable pub from_mapping : Declared → Result MemoryPolicyError MemoryPolicy
from_mapping undeclared = from_fields []
from_mapping (mapping raw) = from_fields raw
from_mapping malformed = err not_a_mapping

unfoldable pub allows_read : MemoryPolicy → String → Result MemoryPolicyError Bool
allows_read p scope = do s ← canonical scope; ok (leb (index s) (index p.read_scope))

unfoldable pub allows_write : MemoryPolicy → String → Result MemoryPolicyError Bool
allows_write p scope = do s ← canonical scope; ok (leb (index s) (index p.write_scope))

unfoldable pub allows_user_memory : Declared → Bool
allows_user_memory raw = elim (from_mapping raw) [ ok p ↦ p.user_memory | err _ ↦ false ]

unfoldable pub persists_conversation : Declared → Bool
persists_conversation raw = elim (from_mapping raw) [
  | ok p ↦ p.persist_conversation
  | err _ ↦ false
]
