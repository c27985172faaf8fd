-- ===== src/SqlGuard/Accepted.antt =====
-- The queries that `_check_tokens` of services/sql_guard.py accepts.
use agents_system.Prelude.{
  ℕ, ◌+◌, ◌^◌, ◌≤◌, nat_eq, Bool, true, some, List, [], ◌∷◌, ◌++◌, ltb, length, count_if, ok, ◌>>=◌,
  bind-ok, ◌≡◌, refl, sym, ap, ◌∙◌, subst, arith, Bool-cases, false, inl, inr, Option, suc, none,
}
use agents_system.SqlGuard.{
  TokenType, l_bracket, r_bracket, is_kind, Limits, max_type_nesting, Level, Scan, power, as_number,
  levels_after, count_reads, scan, start, check_tokens,
}
use agents_system.SqlGuard.Nesting.{Deep, IsCounted, IsChained, IsMoved, levels_after-IsMoved}
use agents_system.SqlGuard.Levels.{
  Levels, shown, nesting, nesting-shown, after_token, levels_from, reads_from, levels_of, reads_of,
  IsShown, levels_after-IsShown, power_pow,
}

-- What holds of the loop's variables between two tokens.
record IsScanned (limits : Limits) (squares : ℕ) (previous : Option TokenType) (levels : Levels)
    (reads : ℕ) (st : Scan) : Type 0 where
  counts : IsCounted limits squares st
  chained : IsChained st
  few_reads : reads ≤ limits.tokens
  same_previous : st.previous ≡ previous
  same_levels : shown st.open_levels ≡ levels
  same_reads : st.reads ≡ reads

count_reads-IsScanned :
    (limits : Limits) (is_type : TokenType → Bool) (squares : ℕ) (kind : TokenType)
    (previous : Option TokenType) (levels : Levels) (reads : ℕ) (st moved after : Scan)
    → IsScanned limits squares previous levels reads st
    → levels_after limits is_type kind st ≡ ok moved
    → count_reads limits kind moved ≡ ok after
    → let now_open = after_token is_type previous kind levels in
      IsScanned limits
        (squares + as_number (is_kind kind l_bracket))
        (some kind)
        now_open
        (reads + 2 ^ nesting now_open)
        after
unfolding count_reads
count_reads-IsScanned limits is_type squares kind previous levels reads st moved after v m h =
    elim (Bool-cases (ltb limits.tokens (moved.reads + power moved.type_nesting))) [
      | inl e ↦ absurd (ground arith)
      | inr e ↦
          let counted : Scan = record moved {
            reads = moved.reads + power moved.type_nesting;
            previous = some kind;
          } in
          let same : counted ≡ after = ground arith in
          subst
            (IsScanned limits (squares + as_number (is_kind kind l_bracket)) (some kind) now_open
              (reads + 2 ^ nesting now_open))
            same
            (record {
              counts = record {
                deep = w.deep;
                nested = w.nested;
                few = w.few;
                counted = w.counted;
                bounded = w.bounded;
              };
              chained = c;
              few_reads = omega (arith, cost, ltb-false (moved.reads + power moved.type_nesting) e);
              same_previous = refl;
              same_levels = same_open;
              same_reads = cost;
            })
    ]
  where
    now_open : Levels
    now_open = after_token is_type previous kind levels

    both : IsMoved limits squares kind moved
    both = levels_after-IsMoved limits is_type kind squares st moved v.counts v.chained m

    w : IsCounted limits (squares + as_number (is_kind kind l_bracket)) moved
    w = both.0

    c : is_kind kind r_bracket ≡ true → suc (length moved.open_levels) ≤ moved.closed_depth
    c = both.1

    moves : IsShown is_type kind st moved
    moves = levels_after-IsShown limits is_type kind st moved m

    same_open : shown moved.open_levels ≡ now_open
    same_open =
        moves.0
        ∙ ap (λ p. after_token is_type p kind (shown st.open_levels)) v.same_previous
        ∙ ap (after_token is_type previous kind) v.same_levels

    nests : moved.type_nesting ≡ nesting now_open
    nests = w.nested ∙ sym (nesting-shown moved.open_levels) ∙ ap nesting same_open

    cost : moved.reads + power moved.type_nesting ≡ reads + 2 ^ nesting now_open
    cost =
        ap (λ n. n + power moved.type_nesting) (moves.2 ∙ v.same_reads)
        ∙ ap (λ n. reads + n) (power_pow moved.type_nesting ∙ ap (λ n. 2 ^ n) nests)

    ltb-false : (n : ℕ) → ltb limits.tokens n ≡ false → n ≤ limits.tokens
    ltb-false n f = ground arith

scan-IsScanned :
    (limits : Limits) (is_type : TokenType → Bool) (xs ys : List TokenType) (squares : ℕ)
    (previous : Option TokenType) (levels : Levels) (reads : ℕ) (st final : Scan)
    → IsScanned limits squares previous levels reads st
    → scan limits is_type (xs ++ ys) st ≡ ok final
    → (after : Scan) × (last : Option TokenType) × IsScanned limits
        (squares + count_if (λ kind. is_kind kind l_bracket) xs)
        last
        (levels_from is_type previous levels xs)
        (reads + reads_from is_type previous levels xs)
        after
unfolding scan
scan-IsScanned limits is_type [] ys squares previous levels reads st final v h = (
  st,
  previous,
  subst (λ n. IsScanned limits n previous levels (reads + 0) st) (omega arith)
      (subst (λ n. IsScanned limits squares previous levels n st) (omega arith) v),
)
scan-IsScanned limits is_type (kind ∷ xs) ys squares previous levels reads st final v h =
    let (moved, m, h') =
      bind-ok (levels_after limits is_type kind st)
        (λ moved. count_reads limits kind moved >>= scan limits is_type (xs ++ ys)) final h in
    let (counted, c, h'') =
      bind-ok (count_reads limits kind moved) (scan limits is_type (xs ++ ys)) final h' in
    let w =
      count_reads-IsScanned limits is_type squares kind previous levels reads st moved counted v m
        c in
    let now_open = after_token is_type previous kind levels in
    let (after, last, u) =
      scan-IsScanned limits is_type xs ys (squares + as_number (is_kind kind l_bracket)) (some kind)
        now_open (reads + 2 ^ nesting now_open) counted final w h'' in
    (
      after,
      last,
      subst
          (λ n.
            IsScanned limits n last (levels_from is_type (some kind) now_open xs)
              (reads + (2 ^ nesting now_open + reads_from is_type (some kind) now_open xs)) after)
          (ground arith)
          (subst
            (λ n.
              IsScanned limits
                (squares
                  + as_number (is_kind kind l_bracket)
                  + count_if (λ k. is_kind k l_bracket) xs)
                last (levels_from is_type (some kind) now_open xs) n after)
            (omega arith) u),
    )

height : (limit : ℕ) (levels : List Level) → Deep limit levels → length (shown levels) ≤ limit
height limit [] h = omega arith
height limit (level ∷ levels) (h, k, d) = omega (arith, h, k, length-shown levels)
  where
    length-shown : (ls : List Level) → length (shown ls) ≡ length ls
    length-shown [] = refl
    length-shown (l ∷ ls) = ap suc (length-shown ls)

-- Wherever the parser stands in a query that is accepted, no more levels are open than the depth
-- allows, and no more than `MAX_TYPE_NESTING` of them opened by a type keyword; no more square
-- brackets were read than allowed; and the reads of the tokens so far, each twice as many for each
-- level around it that a type keyword opened, are no more than the tokens allowed.
pub check_tokens-prefix :
    (limits : Limits) (is_type : TokenType → Bool) (xs ys : List TokenType) (final : Scan)
    → check_tokens limits is_type (xs ++ ys) ≡ ok final
    → (length (levels_of is_type xs) ≤ limits.depth)
      × (nesting (levels_of is_type xs) ≤ max_type_nesting)
      × (count_if (λ kind. is_kind kind l_bracket) xs ≤ limits.square_brackets)
      × (reads_of is_type xs ≤ limits.tokens)
unfolding check_tokens
check_tokens-prefix limits is_type xs ys final h =
    let accepted : scan limits is_type (xs ++ ys) start ≡ ok final = ground arith in
    let (st, last, v) =
      scan-IsScanned limits is_type xs ys 0 none [] 0 start final started accepted in
    let nested = v.counts.nested in
    (
      subst (λ ls. length ls ≤ limits.depth) v.same_levels
          (height limits.depth st.open_levels v.counts.deep),
      omega (arith, ap nesting v.same_levels, nesting-shown st.open_levels, nested, v.counts.few),
      omega (arith, v.counts.bounded),
      omega (arith, v.few_reads),
    )
  where
    started : IsScanned limits 0 none [] 0 start
    started = record {
      counts = record {
        deep = tt;
        nested = refl;
        few = omega arith;
        counted = refl;
        bounded = omega arith;
      };
      chained = λ r. absurd (cc);
      few_reads = omega arith;
      same_previous = refl;
      same_levels = refl;
      same_reads = refl;
    }
