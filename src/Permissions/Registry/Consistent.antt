-- ===== src/Permissions/Registry/Consistent.antt =====
-- The two dicts of permissions/permission_registry.py, as inverses of each other.
use agents_system.Prelude.{
  Option, none, some, String, string_eq, Result, ok, arith, ◌≡◌, refl, subst, inl, inr,
  Option-cases, Result-cases,
}
use agents_system.Dict
use agents_system.Dict.Laws.{get-put}
use agents_system.Permissions.Base.{Class, class_eq, PermissionError}
use agents_system.Permissions.Registry.{
  Registry, empty, register_checked, register_locked, register, get_or_register,
}

pub record IsConsistent (r : Registry) : Type 0 where
  pub name_of_class :
      (n : String) (c : Class) → Dict.get n r.by_name ≡ some c → Dict.get c r.by_class ≡ some n
  pub class_of_name :
      (n : String) (c : Class) → Dict.get c r.by_class ≡ some n → Dict.get n r.by_name ≡ some c

pub IsConsistent-empty : IsConsistent empty
unfolding Dict.get
IsConsistent-empty = record {
  name_of_class = λ n c h. absurd (cc);
  class_of_name = λ n c h. absurd (cc);
}

module _ (cls : Class) (name : String) (r : Registry) where
  put_both-IsConsistent :
      IsConsistent r
      → Dict.get name r.by_name ≡ none
      → Dict.get cls r.by_class ≡ none
      → IsConsistent (record {
        by_name = Dict.put name cls r.by_name;
        by_class = Dict.put cls name r.by_class;
      })
  put_both-IsConsistent v free fresh = record {
    name_of_class = λ n c.
        rw (get-put name n cls r.by_name, get-put cls c name r.by_class)
          (λ h. ground (arith, v.name_of_class n c, v.name_of_class n cls));
    class_of_name = λ n c.
        rw (get-put name n cls r.by_name, get-put cls c name r.by_class)
          (λ h. ground (arith, v.class_of_name n c, v.class_of_name name c));
  }

register_checked-IsConsistent :
    (found : Option Class) (held : Option String) (cls : Class) (name : String) (r r' : Registry)
    → Dict.get name r.by_name ≡ found
    → Dict.get cls r.by_class ≡ held
    → IsConsistent r
    → register_checked found held cls name r ≡ ok r'
    → IsConsistent r'
unfolding register_checked
register_checked-IsConsistent none none cls name r r' free fresh v h =
    subst IsConsistent (cc) (put_both-IsConsistent cls name r v free fresh)
register_checked-IsConsistent none (some held) cls name r r' free fresh v h = absurd (cc)
register_checked-IsConsistent (some found) none cls name r r' free fresh v h = absurd (cc)
register_checked-IsConsistent (some found) (some held) cls name r r' free fresh v h =
    subst IsConsistent (ground arith) v

register_locked-IsConsistent :
    (cls : Class) (name : String) (r r' : Registry)
    → IsConsistent r
    → register_locked cls name r ≡ ok r'
    → IsConsistent r'
unfolding register_locked
register_locked-IsConsistent cls name r r' v h =
    register_checked-IsConsistent _ _ cls name r r' refl refl v h

-- A registration that succeeds keeps the two dicts inverse to each other.
pub register-IsConsistent :
    (cls : Option Class) (name : String) (r r' : Registry)
    → IsConsistent r
    → register cls name r ≡ ok r'
    → IsConsistent r'
unfolding register
register-IsConsistent none name r r' v h = absurd (cc)
register-IsConsistent (some cls) name r r' v h = register_locked-IsConsistent cls name r r' v h

-- The get-or-create keeps the two dicts inverse to each other, whatever its factory does.
pub get_or_register-IsConsistent :
    (name : String) (factory : Unit {0} → Result PermissionError Class) (r r' : Registry)
    (cls : Class)
    → IsConsistent r
    → get_or_register name factory r ≡ ok (cls, r')
    → IsConsistent r'
unfolding get_or_register
get_or_register-IsConsistent name factory r r' cls v h =
    elim (Option-cases (Dict.get name r.by_name)) [
      | inr (found, e) ↦ subst IsConsistent (ground arith) v
      | inl e ↦ elim (Result-cases (factory tt)) [
        | inr (problem, made) ↦ absurd (ground arith)
        | inl (c, made) ↦ elim (Result-cases (register_locked c name r)) [
          | inr (problem, reg) ↦ absurd (ground arith)
          | inl (r2, reg) ↦
              subst IsConsistent (ground arith) (register_locked-IsConsistent c name r r2 v reg)
        ]
      ]
    ]
