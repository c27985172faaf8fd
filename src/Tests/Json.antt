-- ===== src/Tests/Json.antt =====
-- A text that holds two, and the two that it holds: what the runs take for JSON.
use Prim.Native.Nat.{compare, Ordering}
use Prim.Native.Char.{Char, code, nul}
use Prim.Native.String.{String, [], ◌∷◌}
use mathlib.Core.Path.{◌≡◌, refl}
use mathlib.Core.Bool.{Bool, true, false}
use mathlib.Core.Option.{Option, none, some}
use native.Mathlib.Omega.{arith}

abbrev is_end : Char → Bool
is_end m = elim (compare (code m) 0) [ Ordering.eq ↦ true | _ ↦ false ]

abbrev prepend : Char → Option (String × String) → Option (String × String)
prepend c none = none
prepend c (some (to, body)) = some (c ∷ to, body)

abbrev pick : Bool → Option (String × String) → Option (String × String) → Option (String × String)
pick true a b = a
pick false a b = b

-- Each character of the first text with a mark before it, the end, and the second text.
unfoldable pub encode : String → String → String
encode [] body = nul ∷ body
encode (c ∷ to) body = "a" ∷ (c ∷ encode to body)

unfoldable pub decode : String → Option (String × String)
decode [] = none
decode (m ∷ []) = pick (is_end m) (some ([], [])) none
decode (m ∷ (c ∷ s)) = let rest = decode s in pick (is_end m) (some ([], c ∷ s)) (prepend c rest)

pub decode-encode : (to body : String) → decode (encode to body) ≡ some (to, body)
unfolding decode encode
decode-encode [] [] = refl
decode-encode [] (c ∷ body) = refl
decode-encode (c ∷ to) body = ground (arith, decode-encode to body)
