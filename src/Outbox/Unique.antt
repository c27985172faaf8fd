-- ===== src/Outbox/Unique.antt =====
-- The primary key of the rows of services/outbox.py: no transaction takes a row twice.
use agents_system.Prelude.{
  ℕ, zero, suc, ◌==◌, Bool, false, nat_eq, List, [], ◌∷◌, ◌++◌, map, keep_if, All, ◌≡◌, ◌≢◌, refl,
  sym, subst, ◌⊎◌, inl, inr, arith, Bool-cases,
}
use agents_system.Outbox.{
  Work, Outbox, is_pending, insert_ordered, ordered, take, pending_outbox_work, new_work,
}
use agents_system.Outbox.Claim.{Request, claim_row}
use agents_system.Outbox.Rows.{IsIn, Keeps, claimed_row}
use agents_system.Outbox.Steps.{Reach, start, next}
use agents_system.Outbox.Effects.{Effect, unchanged, added, leased, reported, step-Effect}
use agents_system.Outbox.Keyed.{claimed_row-Keeps, Report-Keeps, at_id-Keeps}

-- No row has the id.
abbrev pub IsFree : ℕ → List Work → Type 0
IsFree id = All (λ r. (r.id == id) ≡ false)

-- Each row has an id of its own.
abbrev pub IsUnique : List Work → Type 0
IsUnique [] = Unit {0}
IsUnique (w ∷ ws) = IsFree w.id ws × IsUnique ws

keep_if-IsFree :
    (p : Work → Bool) (id : ℕ) (ws : List Work) → IsFree id ws → IsFree id (keep_if p ws)
keep_if-IsFree p id [] h = tt
keep_if-IsFree p id (w ∷ ws) h = ground (arith, keep_if-IsFree p id ws h.1)

keep_if-IsUnique : (p : Work → Bool) (ws : List Work) → IsUnique ws → IsUnique (keep_if p ws)
keep_if-IsUnique p [] u = tt
keep_if-IsUnique p (w ∷ ws) u =
    ground (arith, keep_if-IsFree p w.id ws u.0, keep_if-IsUnique p ws u.1)

insert_ordered-IsFree :
    (id : ℕ) (w : Work) (ws : List Work)
    → (w.id == id) ≡ false
    → IsFree id ws
    → IsFree id (insert_ordered w ws)
unfolding insert_ordered
insert_ordered-IsFree id w [] e h = (e, tt)
insert_ordered-IsFree id w (x ∷ ws) e h = ground (arith, insert_ordered-IsFree id w ws e h.1)

insert_ordered-IsUnique :
    (w : Work) (ws : List Work) → IsFree w.id ws → IsUnique ws → IsUnique (insert_ordered w ws)
unfolding insert_ordered
insert_ordered-IsUnique w [] f u = (tt, tt)
insert_ordered-IsUnique w (x ∷ ws) f u =
    let other : (w.id == x.id) ≡ false = ground (arith, f.0) in
    ground (arith, insert_ordered-IsUnique w ws f.1 u.1, insert_ordered-IsFree x.id w ws other u.0)

ordered-IsFree : (id : ℕ) (ws : List Work) → IsFree id ws → IsFree id (ordered ws)
unfolding ordered
ordered-IsFree id [] h = tt
ordered-IsFree id (w ∷ ws) h =
    insert_ordered-IsFree id w (ordered ws) h.0 (ordered-IsFree id ws h.1)

ordered-IsUnique : (ws : List Work) → IsUnique ws → IsUnique (ordered ws)
unfolding ordered
ordered-IsUnique [] u = tt
ordered-IsUnique (w ∷ ws) u =
    insert_ordered-IsUnique w (ordered ws) (ordered-IsFree w.id ws u.0) (ordered-IsUnique ws u.1)

take-IsFree : (n id : ℕ) (ws : List Work) → IsFree id ws → IsFree id (take n ws)
unfolding take
take-IsFree zero id ws h = tt
take-IsFree (suc n) id [] h = tt
take-IsFree (suc n) id (w ∷ ws) h = (h.0, take-IsFree n id ws h.1)

take-IsUnique : (n : ℕ) (ws : List Work) → IsUnique ws → IsUnique (take n ws)
unfolding take
take-IsUnique zero ws u = tt
take-IsUnique (suc n) [] u = tt
take-IsUnique (suc n) (w ∷ ws) u = (take-IsFree n w.id ws u.0, take-IsUnique n ws u.1)

-- The selection of a claim takes no row twice.
pub pending-IsUnique :
    (now limit : ℕ) (locked : ℕ → Bool) (rows : List Work)
    → IsUnique rows
    → IsUnique (pending_outbox_work now limit locked rows)
unfolding pending_outbox_work
pending-IsUnique now limit locked rows u =
    take-IsUnique limit _
      (ordered-IsUnique _ (keep_if-IsUnique (is_pending now locked rows) rows u))

-- A claim leaves a row, or does once what its body does to a row of that id.
pub claimed_row-once :
    (req : Request) (ws : List Work) (row : Work)
    → IsUnique ws
    → (claimed_row req ws row ≡ row)
      ⊎ ((w : Work) × IsIn w ws × (w.id ≡ row.id) × (claimed_row req ws row ≡ claim_row req w row))
unfolding claimed_row
claimed_row-once req [] row u = inl refl
claimed_row-once req (w ∷ ws) row u = elim (Bool-cases (row.id == w.id)) [
  | inl e ↦
      let ids = (claimed_row-Keeps req (w ∷ [])).same_id row in
      let kept : (claim_row req w row).id ≡ w.id = ground (arith, ids) in
      inr (
        w,
        inl refl,
        (ground arith),
        ground (
          arith,
          claimed_row-free req ws (claim_row req w row) (subst (λ i. IsFree i ws) (sym kept) u.0),
        ),
      )
  | inr e ↦ elim (claimed_row-once req ws row u.1) [
    | inl same ↦ inl (ground arith)
    | inr (x, m, i, f) ↦ inr (x, inr m, i, ground arith)
  ]
]
  where
    claimed_row-free :
        (req : Request) (ws : List Work) (row : Work)
        → IsFree row.id ws
        → claimed_row req ws row ≡ row
    claimed_row-free req [] row f = refl
    claimed_row-free req (w ∷ ws) row f = ground (arith, claimed_row-free req ws row f.1)

map-IsFree :
    (f : Work → Work) (id : ℕ) (ws : List Work) → Keeps f → IsFree id ws → IsFree id (map f ws)
map-IsFree f id [] k h = tt
map-IsFree f id (w ∷ ws) k h = ((rw (k.same_id w) h.0), map-IsFree f id ws k h.1)

map-IsUnique : (f : Work → Work) (ws : List Work) → Keeps f → IsUnique ws → IsUnique (map f ws)
map-IsUnique f [] k u = tt
map-IsUnique f (w ∷ ws) k u = (
  subst (λ i. IsFree i (map f ws)) (sym (k.same_id w)) (map-IsFree f w.id ws k u.0),
  map-IsUnique f ws k u.1,
)

append-IsFree :
    (id : ℕ) (new : Work) (rows : List Work)
    → (new.id == id) ≡ false
    → IsFree id rows
    → IsFree id (rows ++ (new ∷ []))
append-IsFree id new [] e f = (e, tt)
append-IsFree id new (x ∷ rows) e f = (f.0, append-IsFree id new rows e f.1)

append-IsUnique :
    (rows : List Work) (new : Work)
    → ((s : Work) → IsIn s rows → s.id ≢ new.id)
    → IsUnique rows
    → IsUnique (rows ++ (new ∷ []))
append-IsUnique [] new h u = (tt, tt)
append-IsUnique (r ∷ rows) new h u =
    let other : (new.id == r.id) ≡ false = ground (arith, h r (inl refl)) in
    (append-IsFree r.id new rows other u.0, append-IsUnique rows new (λ s i. h s (inr i)) u.1)

Effect-IsUnique :
    (max : ℕ) (rows after : List Work) → Effect max rows after → IsUnique rows → IsUnique after
unfolding new_work
Effect-IsUnique max rows after (unchanged e) u = subst IsUnique (sym e) u
Effect-IsUnique max rows after (added work_id inbound_id now key fresh e) u =
    subst IsUnique (sym e) (append-IsUnique rows _ fresh u)
Effect-IsUnique max rows after (leased now until worker locked limit one e) u =
    subst IsUnique (sym e) (map-IsUnique _ rows (claimed_row-Keeps _ _) u)
Effect-IsUnique max rows after (reported id worker clock w change m live r e) u =
    subst IsUnique (sym e)
      (map-IsUnique _ rows (at_id-Keeps w.id change (Report-Keeps w change r).0) u)

pub Reach-IsUnique : (max : ℕ) (box : Outbox) → Reach max box → IsUnique box.rows
Reach-IsUnique max box start = tt
Reach-IsUnique max box (next {box = before} r s) =
    Effect-IsUnique max before.rows box.rows (step-Effect max before box s)
      (Reach-IsUnique max before r)
