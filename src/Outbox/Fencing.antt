-- ===== src/Outbox/Fencing.antt =====
-- The lease as a fence in services/outbox.py: who may report of a row that a claim returned.
use agents_system.Prelude.{
  ℕ, ◌+◌, ◌<◌, ◌==◌, Bool, true, false, none, some, String, string_eq, nat_eq, if◌then◌else◌, ltb,
  ◌≡◌, ◌≢◌, refl, ap, sym, subst, ◌≤◌, ◌⊎◌, map, ◌∙◌, inl, inr, Bool-cases, String_discrete, ltb→lt,
  arith, ok, err,
}
use agents_system.Outbox.{Work, Outbox, value_error, lease_lost, is_pending, pending_outbox_work}
use agents_system.Outbox.Claim.{
  update_row, Request, ClaimOutcome, claim_rows, claim_available_outbox_work,
}
use agents_system.Outbox.Settle.{
  complete_row, is_live, find_live, locked_live_work, persist_outbound_intent, complete_outbox_work,
  Failure, record_outbox_failure,
}
use agents_system.Outbox.Rows.{IsIn, IsIn-pending, map-IsIn, claimed_row, claim_rows-rows}
use agents_system.Outbox.Steps.{Reach, next, claims}
use agents_system.Outbox.Keyed.{IsKeyed, Reach-IsKeyed, claimed_row-changes}
use agents_system.Outbox.Unique.{Reach-IsUnique}
use agents_system.Outbox.Replies.{Later, Later-Reach}
use agents_system.Outbox.Fenced.{IsFenced, Later-IsFenced, claimed-IsIn, pending-ended}
use agents_system.Outbox.Changes.{claim_commits}
use agents_system.Outbox.Granted.{IsGranted, find_live-none, find_live-found}

not_live :
    (req : Request) (other : String) (id clock : ℕ) (r : Work)
    → other ≢ req.worker_id
    → (r.id ≡ id → IsGranted req r)
    → is_live id other clock r ≡ false
unfolding is_live
not_live req other id clock r ne g = elim (Bool-cases (r.id == id)) [
  | inr e ↦ ground arith
  | inl e ↦
      let (owner, until, live) = g (ground arith) in
      elim (Bool-cases (req.worker_id == other)) [
        | inl same ↦ absurd (ne (ground arith))
        | inr differ ↦ ground arith
      ]
]

-- Where no row is live for the worker, nothing that it reports is committed.
lost :
    (id : ℕ) (worker : String) (clock now : ℕ) (box : Outbox)
    → find_live id worker clock box.rows ≡ none
    → (complete_outbox_work now clock id worker box ≡ err lease_lost)
      × ((failure : Failure)
          → record_outbox_failure now clock id worker failure box ≡ err lease_lost)
      × ((body key : String)
          → persist_outbound_intent clock id worker body key box ≡ (
              if key == "" then err (value_error "send_key must not be empty") else err lease_lost))
unfolding complete_outbox_work record_outbox_failure persist_outbound_intent locked_live_work
lost id worker clock now box e = (ground arith, λ failure. ground arith, λ body key. ground arith)

completes_found :
    (id : ℕ) (worker : String) (clock now : ℕ) (box : Outbox) (w : Work)
    → find_live id worker clock box.rows ≡ some w
    → (after : Outbox) × (complete_outbox_work now clock id worker box ≡ ok after)
unfolding complete_outbox_work locked_live_work
completes_found id worker clock now box w e =
    (record box { rows = update_row w.id (complete_row now) box.rows }, ground arith)

is_live-granted :
    (req : Request) (id clock : ℕ) (r : Work)
    → clock < req.until
    → r.id ≡ id
    → IsGranted req r
    → is_live id req.worker_id clock r ≡ true
unfolding is_live
is_live-granted req id clock r early same (owner, until, live) = ground arith

-- A row that has no lease is nobody's to report.
free-not_live :
    (id : ℕ) (worker : String) (clock : ℕ) (r : Work)
    → r.lease_expires_at ≡ none
    → is_live id worker clock r ≡ false
unfolding is_live
free-not_live id worker clock r e = ground arith

-- A claim before the lease ends leaves the row as it is.
claim-passes :
    (max : ℕ) (box : Outbox) (req : Request) (now lease limit : ℕ) (locked : ℕ → Bool)
    (worker : String) (o : ClaimOutcome) (r : Work)
    → IsKeyed box.rows
    → IsIn r box.rows
    → IsGranted req r
    → now ≤ req.until
    → claim_available_outbox_work now locked worker limit lease max box ≡ ok o
    → IsIn r o.box.rows
claim-passes max box req now lease limit locked worker o r v m g early h =
    let (asked, _, e) = claim_commits now locked worker limit lease max box o h in
    let picked = pending_outbox_work now limit locked box.rows in
    let rows = ap (λ (x : ClaimOutcome). x.box.rows) e ∙ claim_rows-rows asked picked box in
    let moved = map-IsIn (claimed_row asked picked) r box.rows m in
    elim (claimed_row-changes asked picked r) [
      | inl same ↦
          subst (IsIn r) (sym rows)
            (subst (λ x. IsIn x (map (claimed_row asked picked) box.rows)) same moved)
      | inr (p, in_p, ids) ↦
          let (in_rows, pending) = IsIn-pending now limit locked box.rows p in_p in
          let is_r = v p r in_rows m (sym ids) in
          let ended =
            pending-ended now req.until locked box.rows r
              (subst (λ x. is_pending now locked box.rows x ≡ true) is_r pending) g.1 in
          absurd (omega (arith, ended, early))
    ]

-- Nothing that the worker reports of the row with this id is committed.
abbrev pub AreLost : Outbox → ℕ → ℕ → String → Type 0
AreLost box clock id worker =
    (complete_outbox_work clock clock id worker box ≡ err lease_lost)
    × ((failure : Failure)
        → record_outbox_failure clock clock id worker failure box ≡ err lease_lost)
    × ((body key : String)
        → persist_outbound_intent clock id worker body key box
          ≡ (if key == "" then err (value_error "send_key must not be empty") else err lease_lost))

-- Until this instant the worker's completion of the row is committed, and no claim touches the row.
abbrev pub HoldsUntil : ℕ → Outbox → Work → ℕ → ℕ → String → Type 0
HoldsUntil max box r clock until worker =
    ((until ≤ clock)
      ⊎ ((done : Outbox) × (complete_outbox_work clock clock r.id worker box ≡ ok done)))
    × ((again : ℕ) (locked : ℕ → Bool) (other : String) (limit lease : ℕ) (p : ClaimOutcome)
        → claim_available_outbox_work again locked other limit lease max box ≡ ok p
        → (until < again) ⊎ IsIn r p.box.rows)

-- A row that a claim returned is the claimer's for as long as it counts that attempt, whatever
-- transactions of whatever workers come between: nothing that another worker reports of it is
-- committed, and unless its lease was given up, the claimer's completion is committed until the lease
-- ends, and no claim touches the row before that.
pub claim-fences :
    (max : ℕ) (box : Outbox) (now : ℕ) (locked : ℕ → Bool) (worker : String) (limit lease : ℕ)
    (o : ClaimOutcome) (c : Work) (after : Outbox) (r : Work) (clock : ℕ)
    → Reach max box
    → claim_available_outbox_work now locked worker limit lease max box ≡ ok o
    → IsIn c o.claimed
    → Later max o.box after
    → IsIn r after.rows
    → r.id ≡ c.id
    → r.attempt_count ≡ c.attempt_count
    → ((r.lease_expires_at ≡ none) ⊎ HoldsUntil max after r clock (now + lease) worker)
      × ((other : String) → (other ≡ worker) ⊎ AreLost after clock c.id other)
claim-fences max box now locked worker limit lease o c after r clock reached h m later in_r ids
      counts =
    (own (fenced.1 counts), others)
  where
    asked : Request
    asked = record { now = now; worker_id = worker; until = now + lease; max_attempts = max }

    same : o ≡ claim_rows asked (pending_outbox_work now limit locked box.rows) box
    same =
        let (req, er, eo) = claim_commits now locked worker limit lease max box o h in
        rw (sym er) eo

    in_left : IsIn c o.box.rows × IsGranted asked c
    in_left =
        let (i, g) =
          claimed-IsIn asked locked limit box c (omega arith) (Reach-IsKeyed max box reached)
            (Reach-IsUnique max box reached)
            (subst (λ (y : ClaimOutcome). IsIn c y.claimed) same m) in
        (subst (λ (y : ClaimOutcome). IsIn c y.box.rows) (sym same) i, g)

    reached_o : Reach max o.box
    reached_o = next {box = box} reached (claims {box = box} now locked worker limit lease o h)

    reached_after : Reach max after
    reached_after = Later-Reach max o.box after reached_o later

    keyed : IsKeyed after.rows
    keyed = Reach-IsKeyed max after reached_after

    fenced : IsFenced asked c.attempt_count r
    fenced =
        let (w, in_w, same_id, f) =
          Later-IsFenced max o.box after asked c.attempt_count c reached_o later in_left.0
            (omega arith, λ e. inl in_left.1) in
        subst (IsFenced asked c.attempt_count) (keyed w r in_w in_r (same_id ∙ sym ids)) f

    own :
        IsGranted asked r ⊎ (r.lease_expires_at ≡ none)
        → (r.lease_expires_at ≡ none) ⊎ HoldsUntil max after r clock (now + lease) worker
    own (inr free) = inl free
    own (inl g) = inr (
      (elim (Bool-cases (ltb clock (now + lease))) [
        | inl early ↦
            let (w, f) =
              find_live-found r.id worker clock after.rows r in_r
                (is_live-granted asked r.id clock r (ltb→lt clock (now + lease) early) refl g) in
            inr (completes_found r.id worker clock clock after w f)
        | inr late ↦ inl (ground arith)
      ]),
      λ again free other n length p taken. elim (Bool-cases (ltb (now + lease) again)) [
        | inl ended ↦ inl (ltb→lt (now + lease) again ended)
        | inr early ↦ inr (
            claim-passes max after asked again length n free other p r keyed in_r g (ground arith)
              taken)
      ],
    )

    not_others :
        (other : String)
        → other ≢ worker
        → (y : Work) → IsIn y after.rows
        → is_live c.id other clock y ≡ false
    not_others other ne y in_y = elim (Bool-cases (y.id == c.id)) [
      | inr differ ↦ not_live asked other c.id clock y ne (λ e. absurd (ground arith))
      | inl e ↦
          let is_r : r ≡ y = keyed r y in_r in_y (ids ∙ (ground arith)) in
          elim (fenced.1 counts) [
            | inl g ↦ not_live asked other c.id clock y ne (λ _. subst (IsGranted asked) is_r g)
            | inr free ↦
                free-not_live c.id other clock y
                  (subst (λ (x : Work). x.lease_expires_at ≡ none) is_r free)
          ]
    ]

    others : (other : String) → (other ≡ worker) ⊎ AreLost after clock c.id other
    others other = elim (String_discrete other worker) [
      | yes e ↦ inl e
      | no ne ↦ inr (
          lost c.id other clock clock after
            (find_live-none c.id other clock after.rows (not_others other ne)))
    ]
