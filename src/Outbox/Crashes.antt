-- ===== src/Outbox/Crashes.antt =====
-- Rounds of claims of services/outbox.py after each of which the workers crash.
use agents_system.Prelude.{
  ℕ, zero, suc, ◌+◌, ◌<◌, ◌≤◌, ◌==◌, true, false, String, string_eq, nat_eq, List, [], ◌∷◌, map,
  All, sum_of, Result, ok, err, ◌≡◌, ◌≢◌, refl, sym, subst, ◌⊎◌, inl, inr, arith, Bool-cases,
}
use agents_system.Outbox.{Work, Outbox, is_terminal, is_pending, pending_outbox_work}
use agents_system.Outbox.Claim.{
  Request, ClaimError, has_two_leases, ClaimOutcome, terminal_row, lease_row, claim_row,
  claim_available_outbox_work,
}
use agents_system.Outbox.Rows.{IsIn, IsIn-map, IsIn-pending, claimed_row, claim_rows-rows}
use agents_system.Outbox.InOrder.{IsInOrder, claim-IsInOrder, IsInOrder-has_two_leases}
use agents_system.Outbox.Keyed.{IsKeyed, claim-IsKeyed, Reach-IsKeyed}
use agents_system.Outbox.Steps.{Reach}
use agents_system.Outbox.Left.{left, claimed_row-left, claimed_row-left_own, sum_of-le, sum_of-lt}
use agents_system.Outbox.Draining.{IsRipe, claim_takes}

-- The tables after a claim: as they were, where it was refused.
abbrev after_claim : Outbox → Result ClaimError ClaimOutcome → Outbox
after_claim box (ok o) = o.box
after_claim box (err e) = box

-- `n` claims, each at the instant after the leases of the one before it have run out; no worker
-- reports anything in between.
unfoldable pub crash_rounds : ℕ → ℕ → String → ℕ → ℕ → ℕ → Outbox → Outbox
crash_rounds zero now worker limit lease max box = box
crash_rounds (suc n) now worker limit lease max box =
    crash_rounds n (now + lease + 1) worker limit lease max
      (after_claim box (claim_available_outbox_work now (λ _. false) worker limit lease max box))

-- The claims that all the rows may still take.
abbrev pub all_left : ℕ → List Work → ℕ
all_left max rows = sum_of (left max) rows

claim_row-IsRipe :
    (req : Request) (w row : Work) (later : ℕ)
    → req.until < later
    → IsRipe later row
    → IsRipe later (claim_row req w row)
unfolding claim_row lease_row terminal_row is_terminal
claim_row-IsRipe req w row later h r = ground arith

claimed_row-IsRipe :
    (req : Request) (ws : List Work) (row : Work) (later : ℕ)
    → req.until < later
    → IsRipe later row
    → IsRipe later (claimed_row req ws row)
unfolding claimed_row
claimed_row-IsRipe req [] row later h r = r
claimed_row-IsRipe req (w ∷ ws) row later h r = elim (Bool-cases (row.id == w.id)) [
  | inl e ↦ subst (IsRipe later) (ground arith) (
      claimed_row-IsRipe req ws (claim_row req w row) later h
        (claim_row-IsRipe req w row later h r))
  | inr e ↦ subst (IsRipe later) (ground arith) (claimed_row-IsRipe req ws row later h r)
]

IsRipe-later : (now later : ℕ) (row : Work) → now ≤ later → IsRipe now row → IsRipe later row
IsRipe-later now later row h r = ground arith

-- A round over ripe rows leaves ripe rows, with one claim less left, or none left as before.
round-left :
    (now lease max limit : ℕ) (worker : String) (rows : List Work)
    → 0 < limit
    → IsKeyed rows
    → ((r : Work) → IsIn r rows → IsRipe now r)
    → let req : Request = record {
      now = now;
      worker_id = worker;
      until = now + lease;
      max_attempts = max;
    } in
      let f = claimed_row req (pending_outbox_work now limit (λ _. false) rows) in
      ((all_left max rows ≡ 0) ⊎ (all_left max (map f rows) < all_left max rows))
      × (all_left max (map f rows) ≤ all_left max rows)
      × ((r : Work) → IsIn r (map f rows) → IsRipe (now + lease + 1) r)
unfolding is_pending
round-left now lease max limit worker rows positive v ripe =
    let req : Request = record {
      now = now;
      worker_id = worker;
      until = now + lease;
      max_attempts = max;
    } in
    let picked = pending_outbox_work now limit (λ _. false) rows in
    (
      (elim (claim_takes now limit rows positive ripe) [
        | inl all ↦ inl (none_left max rows all)
        | inr (x, m) ↦
            let (in_rows, pending) = IsIn-pending now limit (λ _. false) rows x m in
            inr (
              sum_of-lt (left max) (claimed_row req picked) rows x (claimed_row-left req picked)
                in_rows
                (claimed_row-left_own req picked x
                  (λ w i same. v w x (IsIn-pending now limit (λ _. false) rows w i).0 in_rows same)
                  (ground arith) m))
      ]),
      sum_of-le (left max) (claimed_row req picked) rows (claimed_row-left req picked),
      λ r i.
          let (r', m, e) = IsIn-map (claimed_row req picked) r rows i in
          subst (IsRipe (now + lease + 1)) e (
            claimed_row-IsRipe req picked r' (now + lease + 1) (omega arith)
              (IsRipe-later now (now + lease + 1) r' (omega arith) (ripe r' m))),
    )
  where
    none_left :
        (max : ℕ) (rows : List Work)
        → All (λ r. is_terminal r ≡ true) rows
        → sum_of (left max) rows ≡ 0
    none_left max [] a = refl
    none_left max (r ∷ rows) (h, a) = ground (arith, none_left max rows a)

left_none :
    (max : ℕ) (rows : List Work) → all_left max rows ≡ 0 → All (λ r. is_terminal r ≡ true) rows
left_none max [] h = tt
left_none max (r ∷ rows) h = (ground arith, left_none max rows (omega arith))

-- The tables after a claim with sound arguments, over rows in order.
after_claim-rows :
    (now limit lease max : ℕ) (worker : String) (box : Outbox)
    → worker ≢ ""
    → 0 < limit
    → 0 < lease
    → IsKeyed box.rows
    → IsInOrder box.rows
    → (after_claim box
        (claim_available_outbox_work now (λ _. false) worker limit lease max box)).rows
      ≡ map
          (claimed_row
            (record { now = now; worker_id = worker; until = now + lease; max_attempts = max })
            (pending_outbox_work now limit (λ _. false) box.rows))
          box.rows
unfolding claim_available_outbox_work
after_claim-rows now limit lease max worker box named positive leased v o =
    let req : Request = record {
      now = now;
      worker_id = worker;
      until = now + lease;
      max_attempts = max;
    } in
    let rows = claim_rows-rows req (pending_outbox_work now limit (λ _. false) box.rows) box in
    let one =
      subst (λ rs. has_two_leases rs ≡ false) (sym rows)
        (IsInOrder-has_two_leases _ (claim-IsKeyed req (λ _. false) limit box.rows v)
          (claim-IsInOrder req (λ _. false) limit box.rows v o)) in
    ground (arith, rows, one)

drains_from :
    (n now limit lease max : ℕ) (worker : String) (box : Outbox)
    → worker ≢ ""
    → 0 < limit
    → 0 < lease
    → IsKeyed box.rows
    → IsInOrder box.rows
    → ((r : Work) → IsIn r box.rows → IsRipe now r)
    → all_left max box.rows ≤ n
    → All (λ r. is_terminal r ≡ true) (crash_rounds n now worker limit lease max box).rows
unfolding crash_rounds
drains_from zero now limit lease max worker box named positive leased v o ripe h =
    left_none max box.rows (omega arith)
drains_from (suc n) now limit lease max worker box named positive leased v o ripe h =
    let rows = after_claim-rows now limit lease max worker box named positive leased v o in
    let (fewer, le, later) = round-left now lease max limit worker box.rows positive v ripe in
    let req : Request = record {
      now = now;
      worker_id = worker;
      until = now + lease;
      max_attempts = max;
    } in
    let after =
      after_claim box (claim_available_outbox_work now (λ _. false) worker limit lease max box) in
    drains_from n (now + lease + 1) limit lease max worker after named positive leased
      (subst IsKeyed (sym rows) (claim-IsKeyed req (λ _. false) limit box.rows v))
      (subst IsInOrder (sym rows) (claim-IsInOrder req (λ _. false) limit box.rows v o))
      (subst (λ rs. (r : Work) → IsIn r rs → IsRipe (now + lease + 1) r) (sym rows) later)
      (subst (λ rs. all_left max rs ≤ n) (sym rows)
        (elim fewer [ inl none_left ↦ omega arith | inr lt ↦ omega arith ]))

-- Even where every worker crashes on every row it claims, the outbox drains: from tables that the
-- transactions reach, in which no row is leased beside an older one of its conversation that is not
-- terminal, once no row is in backoff or under a live lease, as many claims as the rows' attempts left
-- and one more for each make every row terminal.
pub crashes_drain :
    (now limit lease max : ℕ) (worker : String) (box : Outbox)
    → worker ≢ ""
    → 0 < limit
    → 0 < lease
    → Reach max box
    → IsInOrder box.rows
    → ((r : Work) → IsIn r box.rows → IsRipe now r)
    → All
        (λ r. is_terminal r ≡ true)
        (crash_rounds (all_left max box.rows) now worker limit lease max box).rows
crashes_drain now limit lease max worker box named positive leased r o ripe =
    drains_from (all_left max box.rows) now limit lease max worker box named positive leased
      (Reach-IsKeyed max box r) o ripe (omega arith)
