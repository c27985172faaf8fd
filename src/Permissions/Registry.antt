-- ===== src/Permissions/Registry.antt =====
-- `PermissionRegistry` of permissions/permission_registry.py. A method runs under the registry's
-- lock, so it is one step from a registry to the next.
pub mod Consistent
pub mod Lookup
use agents_system.Prelude.{
  Option, none, some, String, string_eq, Result, ok, err, ◌==◌, [], ◌&&◌, Bool, true, false,
  if◌then◌else◌, ◌>>=◌,
}
use agents_system.Dict
use agents_system.Dict.{Dict}
use agents_system.Permissions.Base.{
  Class, class_eq, PermissionError, unknown_name, unknown_class, name_taken, class_taken,
  root_registered,
}

pub record Registry : Type 0 where
  pub by_name : Dict String Class
  pub by_class : Dict Class String

-- `PermissionRegistry()`
abbrev pub empty : Registry
empty = record { by_name = []; by_class = [] }

-- the rules of `_register_locked`, on what the two dicts hold for the name and the class
unfoldable pub register_checked :
    Option Class → Option String → Class → String → Registry → Result PermissionError Registry
register_checked none none cls name r =
    ok (record { by_name = Dict.put name cls r.by_name; by_class = Dict.put cls name r.by_class })
register_checked none (some existing_name) cls name r = err (class_taken name cls existing_name)
register_checked (some existing_cls) none cls name r = err (name_taken name existing_cls cls)
register_checked (some existing_cls) (some existing_name) cls name r =
    if existing_cls == cls && existing_name == name
    then ok r
    else err (name_taken name existing_cls cls)

unfoldable pub register_locked : Class → String → Registry → Result PermissionError Registry
unfolding register_checked
register_locked cls name r =
    register_checked (Dict.get name r.by_name) (Dict.get cls r.by_class) cls name r

-- `register`; `none` is the abstract root
unfoldable pub register : Option Class → String → Registry → Result PermissionError Registry
register none name r = err root_registered
register (some cls) name r = register_locked cls name r

-- `get_or_register`: the factory's result is computed only where the name is not bound.
unfoldable pub get_or_register :
    String
    → (Unit {0} → Result PermissionError Class)
    → Registry
    → Result PermissionError (Class × Registry)
get_or_register name factory r = elim (Dict.get name r.by_name) [
  | some existing ↦ ok (existing, r)
  | none ↦ do cls ← factory tt; r' ← register_locked cls name r; ok (cls, r')
]

unfoldable pub resolve : String → Registry → Result PermissionError Class
resolve name r = elim (Dict.get name r.by_name) [
  | some cls ↦ ok cls
  | none ↦ err (unknown_name name)
]

unfoldable pub reverse : Class → Registry → Result PermissionError String
reverse cls r = elim (Dict.get cls r.by_class) [
  | some name ↦ ok name
  | none ↦ err (unknown_class cls)
]
