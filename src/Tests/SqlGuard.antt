-- ===== src/Tests/SqlGuard.antt =====
-- Token streams of short queries.
use agents_system.Prelude.{
  ◌≤◌, nat_eq, ℕ_discrete, Bool, some, List, [], ◌∷◌, ok, err, length, count_if, ◌≡◌, refl, false,
}
use agents_system.SqlGuard
use agents_system.SqlGuard.{
  TokenType, l_paren, l_bracket, r_paren, r_bracket, case_when, case_end, alias, other, Limits,
  Scan, scan, start, is_kind, max_type_nesting, check_tokens, too_complex, unparseable,
}
use agents_system.SqlGuard.Levels.{levels_of, reads_of, nesting}
use agents_system.SqlGuard.Accepted.{check_tokens-prefix}

runs : Unit {0}
unfolding ℕ_discrete SqlGuard.code SqlGuard.closes SqlGuard.is_opener SqlGuard.is_level_closer
    SqlGuard.power SqlGuard.top_depth SqlGuard.open_level SqlGuard.close_level SqlGuard.levels_after
    SqlGuard.count_reads SqlGuard.scan SqlGuard.check_tokens
runs = tt

abbrev limits : Limits
limits = record { tokens = 9; depth = 2; square_brackets = 2 }

-- `other 0` stands for a type keyword
abbrev is_type : TokenType → Bool
is_type kind = is_kind kind (other 0)

-- x[1][2], which nests like x[1[2]]
abbrev chain : List TokenType
chain = other 1 ∷ l_bracket ∷ other 2 ∷ r_bracket ∷ l_bracket ∷ other 2 ∷ r_bracket ∷ []

abbrev read : List TokenType
read = other 1 ∷ l_bracket ∷ other 2 ∷ r_bracket ∷ l_bracket ∷ []

abbrev unread : List TokenType
unread = other 2 ∷ r_bracket ∷ []

abbrev chain_scan : Scan
chain_scan = record {
  open_levels = [];
  type_nesting = 0;
  closed_depth = 2;
  reads = 7;
  square_brackets = 2;
  previous = some r_bracket;
}

accepted : check_tokens limits is_type chain ≡ ok chain_scan
unfolding runs
accepted = refl

test_chain_too_deep : check_tokens (record limits { depth = 1 }) is_type chain ≡ err too_complex
unfolding runs
test_chain_too_deep = refl

test_mismatched : check_tokens limits is_type (l_paren ∷ r_bracket ∷ []) ≡ err unparseable
unfolding runs
test_mismatched = refl

-- An END closes a CASE only, and after AS it is a label.
test_end : check_tokens limits is_type (l_paren ∷ case_end ∷ r_paren ∷ []) ≡ err unparseable
unfolding runs
test_end = refl

-- What a type keyword's bracket encloses is read twice for each level.
test_reads :
    check_tokens limits is_type
      (other 0 ∷ l_paren ∷ other 0 ∷ l_paren ∷ other 1 ∷ r_paren ∷ r_paren ∷ [])
    ≡ err too_complex
unfolding runs
test_reads = refl

-- The two levels of the chain, of which the second is open, and its five reads.
test_levels : (levels_of is_type read ≡ (l_bracket, false) ∷ []) × (reads_of is_type read ≡ 5)
unfolding runs
test_levels = (refl, refl)

check_tokens-prefix_example :
    (length (levels_of is_type read) ≤ limits.depth)
    × (nesting (levels_of is_type read) ≤ max_type_nesting)
    × (count_if (λ kind. is_kind kind l_bracket) read ≤ limits.square_brackets)
    × (reads_of is_type read ≤ limits.tokens)
check_tokens-prefix_example = check_tokens-prefix limits is_type read unread chain_scan accepted
