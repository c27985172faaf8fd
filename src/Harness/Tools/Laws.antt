-- ===== src/Harness/Tools/Laws.antt =====
-- `ToolRegistry` of harness/registry.py: registration against the lookups.
use agents_system.Prelude.{◌++◌, true, false, String, string_eq, [], ◌∷◌, ok, err, ◌≡◌, ◌≢◌, arith}
use agents_system.Dict
use agents_system.Dict.{Dict}
use agents_system.Dict.Laws.{get-put, keys-put_absent}
use agents_system.Harness.Tools.{
  ToolSpec, already_registered, ToolRegistry, register, get, contains, names,
}

-- Registering a tool succeeds exactly when its name is free; then the name finds that tool, the
-- other names find what they found, and the tool comes last in the list of names.
pub get-register :
    (spec : ToolSpec) (specs : ToolRegistry)
    → ((contains spec.name specs ≡ true) → register spec specs ≡ err (already_registered spec.name))
      × ((contains spec.name specs ≡ false)
          → (specs' : ToolRegistry) × (register spec specs ≡ ok specs')
            × (get spec.name specs' ≡ ok spec)
            × ((n : String) → n ≢ spec.name → get n specs' ≡ get n specs)
            × (names specs' ≡ names specs ++ spec.name ∷ []))
unfolding register get contains names
get-register spec specs = (
  λ taken. ground arith,
  λ free. (
    Dict.put spec.name spec specs,
    ground arith,
    ground (arith, get-put spec.name spec.name spec specs),
    λ n other. ground (arith, get-put spec.name n spec specs),
    keys-put_absent spec.name spec specs (ground arith),
  ),
)
