-- ===== src/SqlGuard.antt =====
-- The scan of a query's tokens before the parser runs: `_check_tokens` of services/sql_guard.py. Which
-- tokens are data-type keywords is the parser library's and an argument.
pub mod Nesting
pub mod Levels
pub mod Accepted
use agents_system.Prelude.{
  ℕ, suc, zero, ◌+◌, ◌-◌, ◌*◌, ◌==◌, nat_eq, Bool, true, false, not, ◌&&◌, ◌||◌, Option, none, some,
  List, [], ◌∷◌, if◌then◌else◌, ltb, length, holds, Result, ok, err, ◌>>=◌,
}

-- The token types that the scan tells apart.
pub data TokenType : Type 0 where
  l_paren l_bracket l_brace case_when r_paren r_bracket r_brace case_end alias dot : TokenType
  other : ℕ → TokenType

unfoldable pub code : TokenType → ℕ
code l_paren = 0
code l_bracket = 1
code l_brace = 2
code case_when = 3
code r_paren = 4
code r_bracket = 5
code r_brace = 6
code case_end = 7
code alias = 8
code dot = 9
code (other n) = 10 + n

-- Two token types are the same.
abbrev pub is_kind : TokenType → TokenType → Bool
is_kind a b = code a == code b

-- `_CLOSES.get(kind)`
unfoldable pub closes : TokenType → Option TokenType
closes l_paren = some r_paren
closes l_bracket = some r_bracket
closes l_brace = some r_brace
closes case_when = some case_end
closes r_paren = none
closes r_bracket = none
closes r_brace = none
closes case_end = none
closes alias = none
closes dot = none
closes (other n) = none

-- `kind in _OPENERS`
unfoldable pub is_opener : TokenType → Bool
unfolding code
is_opener kind = is_kind kind l_paren || is_kind kind l_bracket || is_kind kind l_brace

-- `kind in _LEVEL_CLOSERS`
unfoldable pub is_level_closer : TokenType → Bool
unfolding code
is_level_closer kind =
    is_kind kind r_paren || is_kind kind r_bracket || is_kind kind r_brace || is_kind kind case_end

-- the caps of `_Limits` that the scan applies
pub record Limits : Type 0 where
  pub tokens : ℕ
  pub depth : ℕ
  pub square_brackets : ℕ

abbrev pub max_type_nesting : ℕ
max_type_nesting = 4

pub record Level : Type 0 where
  pub opener : TokenType
  pub by_type : Bool
  pub depth : ℕ

-- The variables of the loop; the innermost level stands first.
pub record Scan : Type 0 where
  pub open_levels : List Level
  pub type_nesting : ℕ
  pub closed_depth : ℕ
  pub reads : ℕ
  pub square_brackets : ℕ
  pub previous : Option TokenType

pub data Rejected : Type 0 where
  too_complex unparseable : Rejected

unfoldable pub power : ℕ → ℕ
power zero = 1
power (suc n) = power n + power n

unfoldable pub top_depth : List Level → ℕ
top_depth [] = 0
top_depth (level ∷ levels) = level.depth

abbrev pub as_number : Bool → ℕ
as_number b = if b then 1 else 0

-- a token that opens a level
unfoldable pub open_level : Limits → (TokenType → Bool) → TokenType → Scan → Result Rejected Scan
unfolding is_opener code top_depth
open_level limits is_type kind st =
    let by_type = is_opener kind && holds is_type st.previous in
    let chained = is_kind kind l_bracket && holds (λ p. is_kind p r_bracket) st.previous in
    let depth = (if chained then st.closed_depth else top_depth st.open_levels) + 1 in
    let nesting = st.type_nesting + as_number by_type in
    let squares = st.square_brackets + as_number (is_kind kind l_bracket) in
    if ltb limits.depth depth || ltb max_type_nesting nesting || ltb limits.square_brackets squares
    then err too_complex
    else ok (record st {
      open_levels = record { opener = kind; by_type = by_type; depth = depth } ∷ st.open_levels;
      type_nesting = nesting;
      square_brackets = squares;
    })

-- a token that closes a level
unfoldable pub close_level : TokenType → Scan → Result Rejected Scan
unfolding closes code
close_level kind st = elim st.open_levels [
  | [] ↦ err unparseable
  | level ∷ levels ↦
      if holds (is_kind kind) (closes level.opener)
      then ok (record st {
        open_levels = levels;
        closed_depth = level.depth;
        type_nesting = st.type_nesting - as_number level.by_type;
      })
      else err unparseable
]

-- what a token does to the levels
unfoldable pub levels_after : Limits → (TokenType → Bool) → TokenType → Scan → Result Rejected Scan
unfolding open_level close_level is_level_closer closes code
levels_after limits is_type kind st = elim (closes kind) [
  | some closer ↦ open_level limits is_type kind st
  | none ↦
      if is_level_closer kind
        && not (is_kind kind case_end && holds (λ p. is_kind p alias || is_kind p dot) st.previous)
      then close_level kind st
      else ok st
]

-- the reads that a token costs
unfoldable pub count_reads : Limits → TokenType → Scan → Result Rejected Scan
unfolding power
count_reads limits kind st =
    let reads = st.reads + power st.type_nesting in
    if ltb limits.tokens reads
    then err too_complex
    else ok (record st { reads = reads; previous = some kind })

-- the loop of `_check_tokens`
unfoldable pub scan : Limits → (TokenType → Bool) → List TokenType → Scan → Result Rejected Scan
unfolding levels_after count_reads
scan limits is_type [] st = ok st
scan limits is_type (kind ∷ kinds) st =
    levels_after limits is_type kind st
    >>= (λ moved. count_reads limits kind moved >>= (λ counted. scan limits is_type kinds counted))

abbrev pub start : Scan
start = record {
  open_levels = [];
  type_nesting = 0;
  closed_depth = 0;
  reads = 0;
  square_brackets = 0;
  previous = none;
}

-- `_check_tokens`: what it raises, or the loop's variables at its end
unfoldable pub check_tokens : Limits → (TokenType → Bool) → List TokenType → Result Rejected Scan
unfolding scan
check_tokens limits is_type kinds =
    if ltb limits.tokens (length kinds) then err too_complex else scan limits is_type kinds start
