-- ===== src/SqlGuard/Nesting.antt =====
-- What an accepted query has open at each of its tokens: `_check_tokens` of services/sql_guard.py.
use agents_system.Prelude.{
  ℕ, suc, ◌+◌, ◌-◌, ◌≤◌, nat_eq, ℕ_discrete, Bool, true, false, not, ◌&&◌, ◌||◌, none, List, [],
  ◌∷◌, if◌then◌else◌, ltb, length, count_if, holds, ok, ◌≡◌, refl, ap, ◌∙◌, subst, arith,
  Bool-cases, Option-cases, inl, inr,
}
use agents_system.SqlGuard.{
  TokenType, l_paren, l_bracket, l_brace, case_when, r_paren, r_bracket, r_brace, case_end, alias,
  dot, other, code, is_kind, closes, is_opener, is_level_closer, Limits, max_type_nesting, Level,
  Scan, as_number, top_depth, open_level, close_level, levels_after,
}

-- Each open level is at least as deep as it is high, and no deeper than the limit.
abbrev pub Deep : ℕ → List Level → Type 0
Deep limit [] = Unit
Deep limit (level ∷ levels) =
    (suc (length levels) ≤ level.depth) × (level.depth ≤ limit) × Deep limit levels

-- What holds of the loop's variables once `kinds` have been read.
pub record IsCounted (limits : Limits) (squares : ℕ) (st : Scan) : Type 0 where
  pub deep : Deep limits.depth st.open_levels
  pub nested : st.type_nesting ≡ count_if (λ level. level.by_type) st.open_levels
  pub few : st.type_nesting ≤ max_type_nesting
  pub counted : st.square_brackets ≡ squares
  pub bounded : squares ≤ limits.square_brackets

-- A level that was just closed was deeper than what is left is high.
abbrev pub IsChained : Scan → Type 0
IsChained st =
    holds (λ p. is_kind p r_bracket) st.previous ≡ true
    → suc (length st.open_levels) ≤ st.closed_depth

pub length-top_depth :
    (limit : ℕ) (levels : List Level) → Deep limit levels → length levels ≤ top_depth levels
unfolding top_depth
length-top_depth limit [] h = omega arith
length-top_depth limit (level ∷ levels) (h, k, d) = h

open_level-IsCounted :
    (limits : Limits) (is_type : TokenType → Bool) (kind : TokenType) (squares : ℕ)
    (st after : Scan)
    → IsCounted limits squares st
    → IsChained st
    → open_level limits is_type kind st ≡ ok after
    → IsCounted limits (squares + as_number (is_kind kind l_bracket)) after
unfolding open_level
open_level-IsCounted limits is_type kind squares st after v c h = elim (Bool-cases refused) [
  | inl e ↦ absurd (ground arith)
  | inr e ↦
      let same : opened ≡ after = ground arith in
      subst (IsCounted limits (squares + as_number (is_kind kind l_bracket))) same (record {
        deep = ((ground arith), (ground arith), v.deep);
        nested = ground arith;
        few = ground arith;
        counted = ground arith;
        bounded = ground arith;
      })
]
  where
    by_type : Bool
    by_type = is_opener kind && holds is_type st.previous

    chained : Bool
    chained = is_kind kind l_bracket && holds (λ p. is_kind p r_bracket) st.previous

    depth : ℕ
    depth = (if chained then st.closed_depth else top_depth st.open_levels) + 1

    nesting : ℕ
    nesting = st.type_nesting + as_number by_type

    brackets : ℕ
    brackets = st.square_brackets + as_number (is_kind kind l_bracket)

    refused : Bool
    refused =
        ltb limits.depth depth
        || ltb max_type_nesting nesting
        || ltb limits.square_brackets brackets

    opened : Scan
    opened = record st {
      open_levels = record { opener = kind; by_type = by_type; depth = depth } ∷ st.open_levels;
      type_nesting = nesting;
      square_brackets = brackets;
    }

    high : suc (length st.open_levels) ≤ depth
    high = elim (Bool-cases chained) [
      | inl k ↦
          let follows : holds (λ p. is_kind p r_bracket) st.previous ≡ true = ground arith in
          let above = c follows in ground arith
      | inr k ↦ let above = length-top_depth limits.depth st.open_levels v.deep in ground arith
    ]

close_level-IsCounted :
    (limits : Limits) (kind : TokenType) (squares : ℕ) (st after : Scan)
    → IsCounted limits squares st
    → close_level kind st ≡ ok after
    → IsCounted limits squares after × (suc (length after.open_levels) ≤ after.closed_depth)
unfolding close_level
close_level-IsCounted limits kind squares st after v h = from st.open_levels refl
  where
    from :
        (levels : List Level)
        → st.open_levels ≡ levels
        → IsCounted limits squares after × (suc (length after.open_levels) ≤ after.closed_depth)
    from [] e = absurd (ground arith)
    from (level ∷ levels) e = elim (Bool-cases (holds (is_kind kind) (closes level.opener))) [
      | inr c ↦ absurd (ground arith)
      | inl c ↦
          let (high, within, deep) : Deep limits.depth (level ∷ levels) =
            subst (Deep limits.depth) e v.deep in
          let closed : Scan = record st {
            open_levels = levels;
            closed_depth = level.depth;
            type_nesting = st.type_nesting - as_number level.by_type;
          } in
          let same : closed ≡ after = ground arith in
          let nested : st.type_nesting
              ≡ as_number level.by_type + count_if (λ l. l.by_type) levels =
            v.nested ∙ ap (count_if (λ l. l.by_type)) e ∙ (ground arith) in
          subst (λ x. IsCounted limits squares x × (suc (length x.open_levels) ≤ x.closed_depth))
            same
            (
              record {
                deep = deep;
                nested = omega (arith, nested);
                few = omega (arith, v.few);
                counted = v.counted;
                bounded = v.bounded;
              },
              high,
            )
    ]

closes_nothing : (kind : TokenType) → closes kind ≡ none → is_kind kind l_bracket ≡ false
unfolding closes code ℕ_discrete
closes_nothing l_paren h = absurd (cc)
closes_nothing l_bracket h = absurd (cc)
closes_nothing l_brace h = absurd (cc)
closes_nothing case_when h = absurd (cc)
closes_nothing r_paren h = refl
closes_nothing r_bracket h = refl
closes_nothing r_brace h = refl
closes_nothing case_end h = refl
closes_nothing alias h = refl
closes_nothing dot h = refl
closes_nothing (other n) h = ground arith

-- A closing square bracket opens nothing and always closes a level.
r_bracket_closes :
    (kind : TokenType)
    → is_kind kind r_bracket ≡ true
    → (closes kind ≡ none) × (is_level_closer kind ≡ true) × (is_kind kind case_end ≡ false)
unfolding closes code is_level_closer ℕ_discrete
r_bracket_closes l_paren h = absurd (ground arith)
r_bracket_closes l_bracket h = absurd (ground arith)
r_bracket_closes l_brace h = absurd (ground arith)
r_bracket_closes case_when h = absurd (ground arith)
r_bracket_closes r_paren h = absurd (ground arith)
r_bracket_closes r_bracket h = (refl, refl, refl)
r_bracket_closes r_brace h = absurd (ground arith)
r_bracket_closes case_end h = absurd (ground arith)
r_bracket_closes alias h = absurd (ground arith)
r_bracket_closes dot h = absurd (ground arith)
r_bracket_closes (other n) h = absurd (ground arith)

-- The levels once a token has been read, before it is the previous one.
abbrev pub IsMoved : Limits → ℕ → TokenType → Scan → Type 0
IsMoved limits squares kind st =
    IsCounted limits (squares + as_number (is_kind kind l_bracket)) st
    × (is_kind kind r_bracket ≡ true → suc (length st.open_levels) ≤ st.closed_depth)

pub levels_after-IsMoved :
    (limits : Limits) (is_type : TokenType → Bool) (kind : TokenType) (squares : ℕ)
    (st after : Scan)
    → IsCounted limits squares st
    → IsChained st
    → levels_after limits is_type kind st ≡ ok after
    → IsMoved limits squares kind after
unfolding levels_after
levels_after-IsMoved limits is_type kind squares st after v c h =
    elim (Option-cases (closes kind)) [
      | inr (closer, e) ↦
          let opens : open_level limits is_type kind st ≡ ok after = ground arith in
          (
            open_level-IsCounted limits is_type kind squares st after v c opens,
            (λ r. let none_closed = (r_bracket_closes kind r).0 in absurd (cc)),
          )
      | inl e ↦
          let same : squares ≡ squares + as_number (is_kind kind l_bracket) =
            ground (arith, closes_nothing kind e) in
          elim (Bool-cases closing) [
            | inl d ↦
                let closed : close_level kind st ≡ ok after = ground arith in
                let (w, deep) = close_level-IsCounted limits kind squares st after v closed in
                (subst (λ n. IsCounted limits n after) same w, (λ r. deep))
            | inr d ↦
                let kept : st ≡ after = ground arith in
                (
                  subst (λ n. IsCounted limits n after) same
                      (subst (IsCounted limits squares) kept v),
                  (λ r. let (n, lc, ce) = r_bracket_closes kind r in absurd (ground arith)),
                )
          ]
    ]
  where
    closing : Bool
    closing =
        is_level_closer kind
        && not (is_kind kind case_end && holds (λ p. is_kind p alias || is_kind p dot) st.previous)
