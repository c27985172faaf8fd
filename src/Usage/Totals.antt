-- ===== src/Usage/Totals.antt =====
-- `InMemoryUsageLedger.record` of usage.py, against the totals.
use agents_system.Prelude.{
  ℕ, ◌+◌, ◌==◌, Bool, ◌&&◌, not, none, some, String, string_eq, pair_eq, List, [], ◌∷◌, ◌++◌,
  if◌then◌else◌, ◌≡◌, ap, ◌∙◌, sym, refl, arith, leb, keep_if, count_if, sum_of, length,
  keep_if-append, sum_of-append, count_if-append, Bool-cases, inl, inr,
}
use agents_system.Dict
use agents_system.Dict.{Dict}
use agents_system.Scope.{Store, Subject}
use agents_system.Scope.Isolation.{view, view-put}
use agents_system.Usage.{
  UsageRecord, UsageTotals, or_zero, priced, totals_of, usage_table, put_record, insert_sorted,
  sort_from, is_since, query, totals,
}

abbrev pub no_totals : UsageTotals
no_totals = record { tokens = 0; cost_usd = 0; turns = 0; unpriced_turns = 0 }

-- The totals with one more turn.
abbrev pub add : UsageRecord → UsageTotals → UsageTotals
add r t = record {
  tokens = t.tokens + or_zero r.total_tokens;
  cost_usd = t.cost_usd + or_zero r.cost_usd;
  turns = t.turns + 1;
  unpriced_turns = t.unpriced_turns + (if priced r then 0 else 1);
}

sum_of-insert_sorted :
    (f : UsageRecord → ℕ) (r : UsageRecord) (xs : List UsageRecord)
    → sum_of f (insert_sorted r xs) ≡ f r + sum_of f xs
unfolding insert_sorted
sum_of-insert_sorted f r [] = refl
sum_of-insert_sorted f r (x ∷ xs) = ground (arith, sum_of-insert_sorted f r xs)

-- A sort changes no sum.
sum_of-sort_from :
    (f : UsageRecord → ℕ) (done rs : List UsageRecord)
    → sum_of f (sort_from done rs) ≡ sum_of f done + sum_of f rs
unfolding sort_from
sum_of-sort_from f done [] = omega arith
sum_of-sort_from f done (r ∷ rs) =
    omega (arith, sum_of-sort_from f (insert_sorted r done) rs, sum_of-insert_sorted f r done)

length-sum_of : (xs : List UsageRecord) → length xs ≡ sum_of (λ r. 1) xs
length-sum_of [] = refl
length-sum_of (x ∷ xs) = omega (arith, length-sum_of xs)

count_if-sum_of :
    (p : UsageRecord → Bool) (xs : List UsageRecord)
    → count_if p xs ≡ sum_of (λ r. if p r then 1 else 0) xs
count_if-sum_of p [] = refl
count_if-sum_of p (x ∷ xs) = ground (arith, count_if-sum_of p xs)

totals_ext :
    (t u : UsageTotals)
    → t.tokens ≡ u.tokens
    → t.cost_usd ≡ u.cost_usd
    → t.turns ≡ u.turns
    → t.unpriced_turns ≡ u.unpriced_turns
    → t ≡ u
totals_ext t u a b c d i = record {
  tokens = a i;
  cost_usd = b i;
  turns = c i;
  unpriced_turns = d i;
}

totals_of-sort_from : (rs : List UsageRecord) → totals_of (sort_from [] rs) ≡ totals_of rs
unfolding totals_of
totals_of-sort_from rs =
    let sorted = sort_from [] rs in
    let sums : (f : UsageRecord → ℕ) → sum_of f sorted ≡ sum_of f rs =
      λ f. omega (arith, sum_of-sort_from f [] rs) in
    totals_ext (totals_of sorted) (totals_of rs) (sums (λ r. or_zero r.total_tokens))
      (sums (λ r. or_zero r.cost_usd))
      (length-sum_of sorted ∙ sums (λ r. 1) ∙ sym (length-sum_of rs))
      (count_if-sum_of (λ r. not (priced r)) sorted
        ∙ sums (λ r. if not (priced r) then 1 else 0)
        ∙ sym (count_if-sum_of (λ r. not (priced r)) rs))

pub length-sort_from : (rs : List UsageRecord) → length (sort_from [] rs) ≡ length rs
unfolding totals_of
length-sort_from rs = ap (λ t. t.turns) (totals_of-sort_from rs)

length-append_one :
    (rs : List UsageRecord) (r : UsageRecord) → length (rs ++ r ∷ []) ≡ length rs + 1
length-append_one [] r = refl
length-append_one (x ∷ rs) r = omega (arith, length-append_one rs r)

totals_of-append :
    (rs : List UsageRecord) (r : UsageRecord) → totals_of (rs ++ r ∷ []) ≡ add r (totals_of rs)
unfolding totals_of
totals_of-append rs r =
    totals_ext (totals_of (rs ++ r ∷ [])) (add r (totals_of rs)) (rw sum_of-append (omega arith))
      (rw sum_of-append (omega arith)) (length-append_one rs r) (rw count_if-append (ground arith))

values-put_absent :
    (k : String) (r : UsageRecord) (d : Dict String UsageRecord)
    → Dict.get k d ≡ none
    → Dict.values (Dict.put k r d) ≡ Dict.values d ++ r ∷ []
unfolding Dict.get Dict.put
values-put_absent k r [] h = refl
values-put_absent k r ((j, w) ∷ d) h = ground (arith, values-put_absent k r d)

totals_of-view :
    (s : Subject) (since : ℕ) (store : Store UsageRecord)
    → totals s since store
      ≡ totals_of (keep_if (is_since (some since)) (Dict.values (view s usage_table store)))
unfolding totals query
totals_of-view s since store = totals_of-sort_from _

totals_of-put :
    (p : UsageRecord → Bool) (k : String) (r : UsageRecord) (d : Dict String UsageRecord)
    → Dict.get k d ≡ none
    → totals_of (keep_if p (Dict.values (Dict.put k r d))) ≡ (
        if p r
        then add r (totals_of (keep_if p (Dict.values d)))
        else totals_of (keep_if p (Dict.values d)))
totals_of-put p k r d fresh = rw (values-put_absent k r d fresh) (
    rw keep_if-append (elim (Bool-cases (p r)) [
      | inl kept ↦ rw kept (totals_of-append (keep_if p (Dict.values d)) r)
      | inr dropped ↦ rw dropped (ap totals_of (append_none (keep_if p (Dict.values d))))
    ]))
  where
    append_none : (rs : List UsageRecord) → rs ++ [] ≡ rs
    append_none [] = refl
    append_none (x ∷ rs) = ap (λ t. x ∷ t) (append_none rs)

-- A turn recorded under an id that its subject's rows do not hold adds its own numbers to every
-- total of that subject that starts at or before it, and changes no other total: neither a later
-- window of the subject nor any window of another subject or runtime.
pub totals-put_record :
    (r : UsageRecord) (s : Subject) (since : ℕ) (store : Store UsageRecord)
    → Dict.get r.id (view (r.runtime_id, r.subject_key) usage_table store) ≡ none
    → totals s since (put_record r store) ≡ (
        if (r.runtime_id, r.subject_key) == s && leb since r.occurred_at
        then add r (totals s since store)
        else totals s since store)
unfolding put_record is_since
totals-put_record r s since store fresh =
    let t : Subject = (r.runtime_id, r.subject_key) in
    ground (
      arith,
      view-put t s usage_table usage_table r.id r store,
      totals_of-view s since (put_record r store),
      totals_of-view s since store,
      totals_of-put (is_since (some since)) r.id r (view t usage_table store) fresh,
    )
