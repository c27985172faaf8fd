-- ===== src/SubjectData/Stores.antt =====
-- The registry of stores and the purger of subject_data.py.
use agents_system.Prelude.{
  ◌==◌, true, false, none, some, String, string_eq, nat_eq, if◌then◌else◌, ok, err, ◌≡◌, ◌⊎◌, inl,
  inr, arith, Option-cases, Bool-cases,
}
use agents_system.Dict
use agents_system.Dict.Laws.{get-put}
use agents_system.SubjectData.{Store, Registry, already_registered, bind}

-- A store that is bound is found under its name, and every other name finds what it found; the one
-- that it replaced, if any, was itself or a placeholder that no app had supplied, and a live store is
-- never replaced by another: the binding is refused.
pub bind-found :
    (store : Store) (r : Registry)
    → ((r' : Registry) × (bind store r ≡ ok r')
        × ((name : String)
            → Dict.get name r' ≡ (
                if store.name == name
                then (elim (Dict.get store.name r) [
                  | none ↦ some store
                  | some held ↦ some (if held.object == store.object then held else store)
                ])
                else Dict.get name r))
        × ((Dict.get store.name r ≡ none)
            ⊎ ((held : Store) × (Dict.get store.name r ≡ some held)
                × ((held.object ≡ store.object) ⊎ (held.unbound ≡ true)))))
      ⊎ ((bind store r ≡ err (already_registered store.name))
          × ((held : Store) × (Dict.get store.name r ≡ some held) × (held.unbound ≡ false)))
unfolding bind
bind-found store r = elim (Option-cases (Dict.get store.name r)) [
  | inl e ↦ inl (
    Dict.put store.name store r,
    ground arith,
    (λ name. ground (arith, get-put store.name name store r)),
    inl e,
  )
  | inr (held, e) ↦ elim (Bool-cases (held.object == store.object)) [
    | inl same ↦ inl (r, ground arith, (λ name. ground arith), inr (held, e, inl (ground arith)))
    | inr other ↦ elim (Bool-cases held.unbound) [
      | inl waits ↦ inl (
        Dict.put store.name store r,
        ground arith,
        (λ name. ground (arith, get-put store.name name store r)),
        inr (held, e, inr waits),
      )
      | inr live ↦ inr (ground arith, (held, e, live))
    ]
  ]
]
