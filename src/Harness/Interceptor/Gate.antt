-- ===== src/Harness/Interceptor/Gate.antt =====
-- The revalidation of harness/interceptor.py, against the deploy ceiling and the caller's grants.
use agents_system.Prelude.{
  ◌==◌, Bool, true, false, Option, none, some, String, string_eq, List, [], ◌∷◌, ok, ◌≡◌, ◌↔◌, inl,
  inr, refl, arith, contains, any-witness, any_of_contains, contains-keep_if, All, Some,
  Result-cases, Bool-cases, Option-cases,
}
use agents_system.Permissions.Base.{Class, class_eq, covers}
use agents_system.Permissions.Registry.{Registry, resolve}
use agents_system.Harness.Tools.{ToolSpec}
use agents_system.Harness.Interceptor.{
  Runtime, classes_of, intersect, is_missing, any_missing, is_sensitive, revalidate,
}

-- A class of the ceiling, named by one of the held permissions, covers the class of the name.
abbrev pub IsCovered : Registry → List Class → List String → String → Type 0
IsCovered r ceiling held name =
    (cls granted : Class) × (resolve name r ≡ ok cls)
    × (contains granted ceiling ≡ true)
    × Some (λ n. resolve n r ≡ ok granted) held
    × (covers granted cls ≡ true)

module _ (r : Registry) where
  pub classes_of-Some :
      (held : List String) (c : Class)
      → contains c (classes_of r held) ≡ true
      → Some (λ n. resolve n r ≡ ok c) held
  unfolding classes_of
  classes_of-Some [] c h = absurd (cc)
  classes_of-Some (n ∷ ns) c h = elim (Result-cases (resolve n r)) [
    | inr (e, failed) ↦ inr (classes_of-Some ns c (ground arith))
    | inl (d, found) ↦ elim (Bool-cases (c == d)) [
      | inl same ↦ inl (ground arith)
      | inr differ ↦ inr (classes_of-Some ns c (ground arith))
    ]
  ]

  covered_of-is_missing :
      (effective : List Class) (name : String)
      → is_missing r effective name ≡ ok false
      → (cls granted : Class) × (resolve name r ≡ ok cls)
        × (contains granted effective ≡ true)
        × (covers granted cls ≡ true)
  unfolding is_missing
  covered_of-is_missing [] name h = absurd (cc)
  covered_of-is_missing (g ∷ gs) name h = elim (Result-cases (resolve name r)) [
    | inr (e, failed) ↦ absurd (ground arith)
    | inl (cls, found) ↦
        let (granted, covering, there) = any-witness (λ c. covers c cls) (g ∷ gs) (ground arith) in
        (cls, granted, found, there, covering)
  ]

  pub contains-classes_of :
      (held : List String) (c : Class)
      → Some (λ n. resolve n r ≡ ok c) held
      → contains c (classes_of r held) ≡ true
  unfolding classes_of
  contains-classes_of [] c h = absurd h
  contains-classes_of (n ∷ ns) c h = elim h [
    | inl here ↦ ground arith
    | inr later ↦ ground (arith, contains-classes_of ns c later)
  ]

  is_missing_of :
      (effective : List Class) (name : String) (cls granted : Class)
      → resolve name r ≡ ok cls
      → contains granted effective ≡ true
      → covers granted cls ≡ true
      → is_missing r effective name ≡ ok false
  unfolding is_missing
  is_missing_of [] name cls granted found there covering = absurd (cc)
  is_missing_of (g ∷ gs) name cls granted found there covering =
      ground (arith, any_of_contains (λ c. covers c cls) granted (g ∷ gs) covering there)

  module _ (ceiling : List Class) (held : List String) where
    is_missing-IsCovered :
        (name : String)
        → is_missing r (intersect ceiling (classes_of r held)) name ≡ ok false
        → IsCovered r ceiling held name
    unfolding intersect
    is_missing-IsCovered name h =
        let (cls, granted, found, there, covering) = covered_of-is_missing _ name h in
        let both = contains-keep_if (λ c. contains c (classes_of r held)) granted ceiling in
        (cls, granted, found, ground arith, classes_of-Some held granted (ground arith), covering)

    any_missing-IsCovered :
        (names : List String)
        → any_missing r (intersect ceiling (classes_of r held)) names ≡ ok false
        → All (IsCovered r ceiling held) names
    unfolding any_missing
    any_missing-IsCovered [] h = tt
    any_missing-IsCovered (n ∷ ns) h =
        elim (Result-cases (is_missing r (intersect ceiling (classes_of r held)) n)) [
          | inr (e, failed) ↦ absurd (ground arith)
          | inl (m, first) ↦
              elim (Result-cases (any_missing r (intersect ceiling (classes_of r held)) ns)) [
                | inr (e, failed) ↦ absurd (ground arith)
                | inl (more, rest) ↦
                    (is_missing-IsCovered n (ground arith), any_missing-IsCovered ns (ground arith))
              ]
        ]

    any_missing_of :
        (names : List String)
        → All (IsCovered r ceiling held) names
        → any_missing r (intersect ceiling (classes_of r held)) names ≡ ok false
    unfolding any_missing intersect
    any_missing_of [] a = refl
    any_missing_of (n ∷ ns) ((cls, granted, found, there, named, covering), rest) =
        let both = contains-keep_if (λ c. contains c (classes_of r held)) granted ceiling in
        let held_c = contains-classes_of held granted named in
        ground (
          arith,
          is_missing_of (intersect ceiling (classes_of r held)) n cls granted found (ground arith)
              covering,
          any_missing_of ns rest,
        )

-- A sensitive tool passes the revalidation exactly when the caller's permissions are given and each
-- permission that the tool requires is registered and covered by a class that one of the caller's
-- permissions names and that lies within the deploy ceiling.
pub revalidate_iff :
    (r : Registry) (runtime : Runtime) (permissions : Option (List String)) (spec : ToolSpec)
    → is_sensitive spec ≡ true
    → (revalidate r runtime permissions spec ≡ ok true) ↔ (
        (held : List String) × (permissions ≡ some held)
        × All (IsCovered r runtime.deploy_grant_ceiling held) spec.required_permissions)
unfolding revalidate
revalidate_iff r runtime none spec s = (λ h. absurd (ground arith), λ (held, e, a). absurd (cc))
revalidate_iff r runtime (some held) spec s = (
  λ h.
      elim (Result-cases
        (any_missing r (intersect ceiling (classes_of r held)) spec.required_permissions)) [
          | inr (e, failed) ↦ absurd (ground arith)
          | inl (m, found) ↦ (
            held,
            refl,
            any_missing-IsCovered r ceiling held spec.required_permissions (ground arith),
          )
        ],
  λ (own, e, a).
      let same : own ≡ held = ground arith in
      let a' : All (IsCovered r ceiling held) spec.required_permissions = rw same at a in
      ground (arith, any_missing_of r ceiling held spec.required_permissions a'),
)
  where
    open runtime use {deploy_grant_ceiling as ceiling}

-- A tool that is not sensitive needs no permission of the caller.
revalidate_harmless :
    (r : Registry) (runtime : Runtime) (permissions : Option (List String)) (spec : ToolSpec)
    → is_sensitive spec ≡ false
    → revalidate r runtime permissions spec ≡ ok false
unfolding revalidate
revalidate_harmless r runtime permissions spec s = ground arith

-- The result of a revalidation that passes says whether the tool is sensitive.
pub revalidate-is_sensitive :
    (r : Registry) (runtime : Runtime) (permissions : Option (List String)) (spec : ToolSpec)
    (b : Bool)
    → revalidate r runtime permissions spec ≡ ok b
    → b ≡ is_sensitive spec
unfolding revalidate
revalidate-is_sensitive r runtime permissions spec b h = elim (Bool-cases (is_sensitive spec)) [
  | inr harmless ↦ ground (arith, revalidate_harmless r runtime permissions spec harmless)
  | inl sensitive ↦ elim (Option-cases permissions) [
    | inl missing ↦ absurd (ground arith)
    | inr (held, given) ↦
        elim (Result-cases (
          any_missing r (intersect runtime.deploy_grant_ceiling (classes_of r held))
            spec.required_permissions)) [
              | inr (e, failed) ↦ absurd (ground arith)
              | inl (m, found) ↦ ground arith
            ]
  ]
]
