-- ===== src/Harness/Tools.antt =====
-- `ToolSpec` and `ToolRegistry` of harness/registry.py. The description and the input schema, which
-- only the model's provider reads, are not modelled; of the connector, whether it is a coroutine
-- function.
pub mod Laws
use agents_system.Prelude.{
  ◌==◌, Bool, true, false, ◌||◌, Option, none, some, String, string_eq, List, [], ◌∷◌, Result, ok,
  err, ◌>>=◌, ◌>>◌, if◌then◌else◌,
}
use agents_system.Dict
use agents_system.Dict.{Dict}
use agents_system.Permissions.Base.{Tier, PermissionError}
use agents_system.Permissions.Registry.{Registry}
use agents_system.Permissions.ToolRules.{evaluate_tool_spec}
use agents_system.MemoryPolicy.{Scope, text, normalize_scope}

pub record ToolSpec : Type 0 where
  pub name : String
  pub required_permissions : List String
  pub is_async : Bool
  pub tier : Tier
  pub always_revalidate : Bool
  pub subject_scoped : Bool
  pub needs_user_memory : Bool
  pub memory_access : Option String
  pub memory_scope : String

pub data SpecError : Type 0 where
  bad_memory_access : String → SpecError
  bad_memory_scope : String → SpecError
  permission_error : PermissionError → SpecError

unfoldable pub is_access : Option String → Bool
is_access none = true
is_access (some a) = a == "read" || a == "write" || a == "readwrite"

unfoldable pub as_spec_error : Result PermissionError (Unit {0}) → Result SpecError (Unit {0})
as_spec_error (ok u) = ok u
as_spec_error (err e) = err (permission_error e)

-- `ToolSpec.__post_init__`
unfoldable pub post_init : ToolSpec → Registry → Result SpecError (Unit {0})
unfolding is_access as_spec_error
post_init spec r =
    if is_access spec.memory_access
    then elim (normalize_scope (text spec.memory_scope)) [
      | none ↦ err (bad_memory_scope spec.name)
      | some _ ↦ as_spec_error (evaluate_tool_spec spec.name spec.tier spec.required_permissions r)
    ]
    else err (bad_memory_access spec.name)

pub data ToolError : Type 0 where
  already_registered : String → ToolError
  tool_not_found : String → ToolError

abbrev pub ToolRegistry : Type 0
ToolRegistry = Dict String ToolSpec

unfoldable pub register : ToolSpec → ToolRegistry → Result ToolError ToolRegistry
register spec specs =
    if Dict.has spec.name specs
    then err (already_registered spec.name)
    else ok (Dict.put spec.name spec specs)

unfoldable pub get : String → ToolRegistry → Result ToolError ToolSpec
get name specs = elim (Dict.get name specs) [
  | some spec ↦ ok spec
  | none ↦ err (tool_not_found name)
]

unfoldable pub contains : String → ToolRegistry → Bool
contains name specs = Dict.has name specs

unfoldable pub names : ToolRegistry → List String
names = Dict.keys
