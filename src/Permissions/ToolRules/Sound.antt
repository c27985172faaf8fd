-- ===== src/Permissions/ToolRules/Sound.antt =====
-- `evaluate_tool_spec` of permissions/permission_registry.py, against R2a and R2b.
use agents_system.Prelude.{
  ◌≤◌, String, List, [], ◌∷◌, ok, true, ◌≡◌, ◌↔◌, inl, inr, refl, arith, All, Some, Result-cases,
  Bool-cases, any, leb,
}
use agents_system.Permissions.Base.{Tier, tier_rank, Class, tier_of}
use agents_system.Permissions.Registry.{Registry, resolve}
use agents_system.Permissions.ToolRules.{
  resolve_all, check_ceiling, is_dangerous, check_floor, evaluate_tool_spec,
}

-- The name is registered, to a class whose tier is at most the tool's.
abbrev pub IsWithin : Tier → Registry → String → Type 0
IsWithin tier r name =
    (cls : Class) × (resolve name r ≡ ok cls) × (tier_rank (tier_of cls) ≤ tier_rank tier)

-- The name is registered, to a class of at least the tool's tier.
abbrev pub Reaches : Tier → Registry → String → Type 0
Reaches tier r name =
    (cls : Class) × (resolve name r ≡ ok cls) × (tier_rank tier ≤ tier_rank (tier_of cls))

abbrev Found : Type 0
Found = List (String × Class)

module _ (tier : Tier) (r : Registry) where
  resolve_all-cons :
      (n : String) (ns : List String) (found : Found)
      → resolve_all (n ∷ ns) r ≡ ok found
      → (cls : Class) × (rest : Found) × (resolve n r ≡ ok cls)
        × (resolve_all ns r ≡ ok rest)
        × (found ≡ (n, cls) ∷ rest)
  unfolding resolve_all
  resolve_all-cons n ns found h = elim (Result-cases (resolve n r)) [
    | inr (e, failed) ↦ absurd (ground arith)
    | inl (cls, hit) ↦ elim (Result-cases (resolve_all ns r)) [
      | inr (e, failed) ↦ absurd (ground arith)
      | inl (rest, more) ↦ (cls, rest, hit, more, ground arith)
    ]
  ]

  check_ceiling-IsWithin :
      (tool : String) (names : List String) (found : Found)
      → resolve_all names r ≡ ok found
      → check_ceiling tool tier found ≡ ok tt
      → All (IsWithin tier r) names
  unfolding check_ceiling
  check_ceiling-IsWithin tool [] found h c = tt
  check_ceiling-IsWithin tool (n ∷ ns) found h c =
      let (cls, rest, hit, more, shape) = resolve_all-cons n ns found h in
      let c' : check_ceiling tool tier ((n, cls) ∷ rest) ≡ ok tt = rw shape at c in
      ((cls, hit, ground arith), check_ceiling-IsWithin tool ns rest more (ground arith))

  resolve_all-Reaches :
      (names : List String) (found : Found)
      → resolve_all names r ≡ ok found
      → any (λ p. leb (tier_rank tier) (tier_rank (tier_of p.1))) found ≡ true
      → Some (Reaches tier r) names
  unfolding resolve_all
  resolve_all-Reaches [] found h a = ground arith
  resolve_all-Reaches (n ∷ ns) found h a =
      let (cls, rest, hit, more, shape) = resolve_all-cons n ns found h in
      let a' : any (λ p. leb (tier_rank tier) (tier_rank (tier_of p.1))) ((n, cls) ∷ rest) ≡ true =
        rw shape at a in
      elim (Bool-cases (leb (tier_rank tier) (tier_rank (tier_of cls)))) [
        | inl reach ↦ inl (cls, hit, ground arith)
        | inr short ↦ inr (resolve_all-Reaches ns rest more (ground arith))
      ]

  resolve_all_of :
      (tool : String) (names : List String)
      → All (IsWithin tier r) names
      → (found : Found) × (resolve_all names r ≡ ok found) × (check_ceiling tool tier found ≡ ok tt)
  unfolding resolve_all check_ceiling
  resolve_all_of tool [] w = ([], refl, refl)
  resolve_all_of tool (n ∷ ns) ((cls, hit, low), w) =
      let (rest, more, fine) = resolve_all_of tool ns w in
      ((n, cls) ∷ rest, ground arith, ground arith)

  any-Reaches :
      (names : List String) (found : Found)
      → resolve_all names r ≡ ok found
      → Some (Reaches tier r) names
      → any (λ p. leb (tier_rank tier) (tier_rank (tier_of p.1))) found ≡ true
  any-Reaches [] found h s = absurd s
  any-Reaches (n ∷ ns) found h s =
      let (cls, rest, hit, more, shape) = resolve_all-cons n ns found h in
      rw shape (elim s [
        | inl (c, found_c, high) ↦ ground arith
        | inr later ↦ ground (arith, any-Reaches ns rest more later)
      ])

  -- A tool declaration is accepted exactly when every permission that it requires is registered
  -- with a tier at most the tool's and, if the tool is of tier T2 or T3, one of them reaches it.
  pub evaluate_tool_spec_iff :
      (tool : String) (names : List String)
      → (evaluate_tool_spec tool tier names r ≡ ok tt)
        ↔ (All (IsWithin tier r) names × (is_dangerous tier ≡ true → Some (Reaches tier r) names))
  unfolding evaluate_tool_spec check_floor
  evaluate_tool_spec_iff tool names = (
    λ h. elim (Result-cases (resolve_all names r)) [
      | inr (e, failed) ↦ absurd (ground arith)
      | inl (found, hit) ↦ (
        check_ceiling-IsWithin tool names found hit (ground arith),
        λ danger. resolve_all-Reaches names found hit (ground arith),
      )
    ],
    λ (within, reach).
        let (found, hit, fine) = resolve_all_of tool names within in
        elim (Bool-cases (is_dangerous tier)) [
          | inl danger ↦ ground (arith, any-Reaches names found hit (reach danger))
          | inr harmless ↦ ground arith
        ],
  )
