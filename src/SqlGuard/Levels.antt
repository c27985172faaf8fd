-- ===== src/SqlGuard/Levels.antt =====
-- The levels that a query has open at a token, and how often the parser reads its tokens, without the
-- bookkeeping of `_check_tokens` of services/sql_guard.py.
use agents_system.Prelude.{
  ℕ, suc, zero, ◌+◌, ◌^◌, nat_eq, Bool, not, ◌&&◌, ◌||◌, Option, none, some, List, [], ◌∷◌,
  if◌then◌else◌, map, count_if, holds, ok, ◌≡◌, refl, sym, ap, ◌∙◌, arith, Bool-cases, Option-cases,
  inl, inr,
}
use agents_system.SqlGuard.{
  TokenType, case_end, alias, dot, is_kind, closes, is_opener, is_level_closer, Limits, Level, Scan,
  power, open_level, close_level, levels_after,
}

-- The open levels, the innermost first: what opened each, and whether right after a type keyword.
abbrev pub Levels : Type 0
Levels = List (TokenType × Bool)

abbrev pub outer : Levels → Levels
outer [] = []
outer (level ∷ levels) = levels

-- An opener opens a level, and a closer closes the innermost one; an END after AS or a dot is a label.
abbrev pub after_token : (TokenType → Bool) → Option TokenType → TokenType → Levels → Levels
after_token is_type previous kind levels = elim (closes kind) [
  | some closer ↦ (kind, is_opener kind && holds is_type previous) ∷ levels
  | none ↦
      if is_level_closer kind
        && not (is_kind kind case_end && holds (λ p. is_kind p alias || is_kind p dot) previous)
      then outer levels
      else levels
]

-- The levels that are open after these tokens.
abbrev pub levels_from : (TokenType → Bool) → Option TokenType → Levels → List TokenType → Levels
levels_from is_type previous levels [] = levels
levels_from is_type previous levels (kind ∷ kinds) =
    levels_from is_type (some kind) (after_token is_type previous kind levels) kinds

-- How many of the levels a type keyword opened.
abbrev pub nesting : Levels → ℕ
nesting = count_if (λ level. level.1)

-- A token is read twice as often for each level around it that a type keyword opened.
abbrev pub reads_from : (TokenType → Bool) → Option TokenType → Levels → List TokenType → ℕ
reads_from is_type previous levels [] = 0
reads_from is_type previous levels (kind ∷ kinds) =
    2 ^ nesting (after_token is_type previous kind levels)
    + reads_from is_type (some kind) (after_token is_type previous kind levels) kinds

abbrev pub levels_of : (TokenType → Bool) → List TokenType → Levels
levels_of is_type = levels_from is_type none []

abbrev pub reads_of : (TokenType → Bool) → List TokenType → ℕ
reads_of is_type = reads_from is_type none []

-- What the scan holds of its levels.
abbrev pub shown : List Level → Levels
shown = map (λ level. (level.opener, level.by_type))

pub nesting-shown :
    (levels : List Level) → nesting (shown levels) ≡ count_if (λ l. l.by_type) levels
nesting-shown [] = refl
nesting-shown (level ∷ levels) = ground (arith, nesting-shown levels)

pub power_pow : (n : ℕ) → power n ≡ 2 ^ n
unfolding power
power_pow zero = ground arith
power_pow (suc n) = ground (arith, power_pow n)

-- What a token does to the scan is what it does to the levels; the reads and the previous token are
-- kept for later.
abbrev pub IsShown : (TokenType → Bool) → TokenType → Scan → Scan → Type 0
IsShown is_type kind st after =
    (shown after.open_levels ≡ after_token is_type st.previous kind (shown st.open_levels))
    × (after.previous ≡ st.previous)
    × (after.reads ≡ st.reads)

open_level-opens :
    (limits : Limits) (is_type : TokenType → Bool) (kind : TokenType) (st after : Scan)
    → open_level limits is_type kind st ≡ ok after
    → (shown after.open_levels
        ≡ (kind, is_opener kind && holds is_type st.previous) ∷ shown st.open_levels)
      × (after.previous ≡ st.previous)
      × (after.reads ≡ st.reads)
unfolding open_level
open_level-opens limits is_type kind st after h = (ground arith, ground arith, ground arith)

close_level-closes :
    (kind : TokenType) (st after : Scan)
    → close_level kind st ≡ ok after
    → (shown after.open_levels ≡ outer (shown st.open_levels))
      × (after.previous ≡ st.previous)
      × (after.reads ≡ st.reads)
unfolding close_level
close_level-closes kind st after h = from st.open_levels refl
  where
    from :
        (levels : List Level)
        → st.open_levels ≡ levels
        → (shown after.open_levels ≡ outer (shown st.open_levels))
          × (after.previous ≡ st.previous)
          × (after.reads ≡ st.reads)
    from [] e = absurd (ground arith)
    from (level ∷ levels) e = elim (Bool-cases (holds (is_kind kind) (closes level.opener))) [
      | inr c ↦ absurd (ground arith)
      | inl c ↦ ((ground arith) ∙ sym (ap (λ ls. outer (shown ls)) e), ground arith, ground arith)
    ]

pub levels_after-IsShown :
    (limits : Limits) (is_type : TokenType → Bool) (kind : TokenType) (st after : Scan)
    → levels_after limits is_type kind st ≡ ok after
    → IsShown is_type kind st after
unfolding levels_after
levels_after-IsShown limits is_type kind st after h = elim (Option-cases (closes kind)) [
  | inr (closer, e) ↦
      let (a, b, c) = open_level-opens limits is_type kind st after (ground arith) in
      (ground (arith, a), b, c)
  | inl e ↦
      elim (Bool-cases (
        is_level_closer kind
        && not
            (is_kind kind case_end && holds (λ p. is_kind p alias || is_kind p dot) st.previous))) [
              | inl d ↦
                  let (a, b, c) = close_level-closes kind st after (ground arith) in
                  (ground (arith, a), b, c)
              | inr d ↦ (ground arith, ground arith, ground arith)
            ]
]
