-- ===== src/Permissions/Registry/Lookup.antt =====
-- Registrations of permissions/permission_registry.py against the lookups.
use agents_system.Prelude.{
  none, some, String, string_eq, Result, ok, arith, ◌≡◌, ◌≢◌, ◌↔◌, ◌⊎◌, inl, inr, Option-cases,
  Result-cases,
}
use agents_system.Dict
use agents_system.Dict.Laws.{get-put}
use agents_system.Permissions.Base.{Class, class_eq, PermissionError}
use agents_system.Permissions.Registry.{
  Registry, register_locked, register, get_or_register, resolve, reverse,
}
use agents_system.Permissions.Registry.Consistent.{IsConsistent}

module _ (cls : Class) (name : String) (r r' : Registry) where
  -- After a registration the name resolves to the class, the class reverses to the name, and every
  -- other name resolves as before.
  pub resolve-register :
      register (some cls) name r ≡ ok r'
      → (resolve name r' ≡ ok cls)
        × (reverse cls r' ≡ ok name)
        × ((n : String) → n ≢ name → resolve n r' ≡ resolve n r)
  unfolding register register_locked resolve reverse
  resolve-register h = (
    ground (arith, get-put name name cls r.by_name),
    ground (arith, get-put cls cls name r.by_class),
    λ n other. ground (arith, get-put name n cls r.by_name),
  )

-- In a consistent registry a class is accepted under a name exactly when neither is taken, or when
-- each is already bound to the other.
pub register_iff :
    (cls : Class) (name : String) (r : Registry)
    → IsConsistent r
    → ((r' : Registry) × (register (some cls) name r ≡ ok r')) ↔ (
        ((Dict.get name r.by_name ≡ none) × (Dict.get cls r.by_class ≡ none))
        ⊎ (Dict.get name r.by_name ≡ some cls))
unfolding register register_locked
register_iff cls name r v = (
  λ (r', h). ground (arith, v.class_of_name name cls),
  λ h. elim h [
    | inl free ↦ (
      record { by_name = Dict.put name cls r.by_name; by_class = Dict.put cls name r.by_class },
      ground arith,
    )
    | inr bound ↦ (r, ground (arith, v.name_of_class name cls))
  ],
)

bound_after :
    (cls : Class) (name : String) (r r' : Registry)
    → register_locked cls name r ≡ ok r'
    → Dict.get name r'.by_name ≡ some cls
unfolding register_locked
bound_after cls name r r' h = ground (arith, get-put name name cls r.by_name)

created_bound :
    (name : String) (factory : Unit {0} → Result PermissionError Class) (r r' : Registry)
    (cls : Class)
    → get_or_register name factory r ≡ ok (cls, r')
    → Dict.get name r'.by_name ≡ some cls
unfolding get_or_register
created_bound name factory r r' cls h = elim (Option-cases (Dict.get name r.by_name)) [
  | inr (found, e) ↦ ground arith
  | inl e ↦ elim (Result-cases (factory tt)) [
    | inr (problem, made) ↦ absurd (ground arith)
    | inl (c, made) ↦ ground (arith, bound_after c name r r')
  ]
]

-- Two get-or-create calls for one name agree, in whichever order they take the lock: the second
-- returns the class of the first and changes nothing, whatever class it would have built.
pub get_or_register_agree :
    (name : String) (first second : Unit {0} → Result PermissionError Class) (r r' : Registry)
    (cls : Class)
    → get_or_register name first r ≡ ok (cls, r')
    → (resolve name r' ≡ ok cls) × (get_or_register name second r' ≡ ok (cls, r'))
unfolding get_or_register resolve
get_or_register_agree name first second r r' cls h =
    let bound = created_bound name first r r' cls h in (ground arith, ground arith)
