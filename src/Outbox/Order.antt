-- ===== src/Outbox/Order.antt =====
-- The order of a conversation in services/outbox.py: who may hold a lease, and since when.
use agents_system.Prelude.{
  ℕ, ◌==◌, nat_eq, true, false, List, [], ◌∷◌, ◌++◌, map, is_none, ◌≡◌, ◌≢◌, refl, ap, sym, ◌∙◌,
  subst, ◌⊎◌, inl, inr, arith, Bool-cases,
}
use agents_system.Outbox.{Work, Outbox, new_work, is_terminal, is_older_sibling}
use agents_system.Outbox.Rows.{IsIn, IsIn-append, IsIn-map, Keeps, Keeps-sibling}
use agents_system.Outbox.Steps.{IsOldest, Step, Reach, start, next}
use agents_system.Outbox.Changes.{at_id}
use agents_system.Outbox.Effects.{Effect, unchanged, added, leased, reported, step-Effect}
use agents_system.Outbox.Keyed.{IsHeld, Reach-IsKeyed, claimed_row-Keeps, Report-Keeps, at_id-Keeps}
use agents_system.Outbox.Replies.{Later, at_once, onward}
use agents_system.Outbox.Siblings.{older_or_same, IsExclusive, index-IsExclusive, claimed_row-held}

append-IsExclusive :
    (rows : List Work) (new : Work)
    → is_none new.lease_expires_at ≡ true
    → IsExclusive rows
    → IsExclusive (rows ++ (new ∷ []))
append-IsExclusive rows new free v a b in_a in_b held_a held_b key =
    elim (IsIn-append a new rows in_a) [
      | inr ea ↦ absurd (ground (arith, ap (λ (w : Work). w.lease_expires_at) ea, held_a.1))
      | inl ma ↦ elim (IsIn-append b new rows in_b) [
        | inr eb ↦ absurd (ground (arith, ap (λ (w : Work). w.lease_expires_at) eb, held_b.1))
        | inl mb ↦ v a b ma mb held_a held_b key
      ]
    ]

map-IsExclusive :
    (f : Work → Work) (rows : List Work)
    → Keeps f
    → ((x : Work) → IsHeld (f x) → IsHeld x)
    → IsExclusive rows
    → IsExclusive (map f rows)
map-IsExclusive f rows k gives v a b in_a in_b held_a held_b key =
    let (a', ma, ea) = IsIn-map f a rows in_a in
    let (b', mb, eb) = IsIn-map f b rows in_b in
    let keys : a'.conversation_key ≡ b'.conversation_key =
      sym (k.same_key a')
      ∙ ap (λ w. w.conversation_key) ea
      ∙ key
      ∙ sym (ap (λ w. w.conversation_key) eb)
      ∙ k.same_key b' in
    let ids =
      v a' b' ma mb (gives a' (subst IsHeld (sym ea) held_a))
        (gives b' (subst IsHeld (sym eb) held_b)) keys in
    sym (ap (λ w. w.id) ea) ∙ k.same_id a' ∙ ids ∙ sym (k.same_id b') ∙ ap (λ w. w.id) eb

at_id-held :
    (id : ℕ) (change : Work → Work) (x : Work)
    → ((y : Work) → IsHeld (change y) → IsHeld y)
    → IsHeld (at_id id change x)
    → IsHeld x
at_id-held id change x gives held = elim (Bool-cases (x.id == id)) [
  | inl e ↦ gives x (subst IsHeld (ground arith) held)
  | inr e ↦ subst IsHeld (ground arith) held
]

Effect-IsExclusive :
    (max : ℕ) (rows after : List Work)
    → Effect max rows after
    → IsExclusive rows
    → IsExclusive after
unfolding new_work
Effect-IsExclusive max rows after (unchanged e) v = subst IsExclusive (sym e) v
Effect-IsExclusive max rows after (added work_id inbound_id now key fresh e) v =
    subst IsExclusive (sym e) (append-IsExclusive rows _ refl v)
Effect-IsExclusive max rows after (leased now until worker locked limit one e) v =
    index-IsExclusive after one
Effect-IsExclusive max rows after (reported id worker clock w change m live r e) v =
    let (k, gives) = Report-Keeps w change r in
    subst IsExclusive (sym e) (
      map-IsExclusive (at_id w.id change) rows (at_id-Keeps w.id change k)
        (λ x. at_id-held w.id change x gives) v)

Reach-IsExclusive : (max : ℕ) (box : Outbox) → Reach max box → IsExclusive box.rows
Reach-IsExclusive max box start = λ a b in_a. absurd in_a
Reach-IsExclusive max box (next {box = before} r s) =
    Effect-IsExclusive max before.rows box.rows (step-Effect max before box s)
      (Reach-IsExclusive max before r)

-- In some earlier tables the row `a` was leased already, and the row `b` was not there yet.
pub record LeasedBefore (max : ℕ) (box : Outbox) (a b : Work) : Type 0 where
  pub earlier : Outbox
  pub reached : Reach max earlier
  pub later : Later max earlier box
  pub row : Work
  pub is_there : IsIn row earlier.rows
  pub same : row.id ≡ a.id
  pub held : IsHeld row
  pub absent : (r : Work) → IsIn r earlier.rows → r.id ≢ b.id

-- The same of the rows after one more transaction.
LeasedBefore-onward :
    (max : ℕ) (box after : Outbox) (a b a' b' : Work)
    → Step max box after
    → a'.id ≡ a.id
    → b'.id ≡ b.id
    → LeasedBefore max box a b
    → LeasedBefore max after a' b'
LeasedBefore-onward max box after a b a' b' s ia ib l = record {
  earlier = l.earlier;
  reached = l.reached;
  later = onward {between = box} l.later s;
  row = l.row;
  is_there = l.is_there;
  same = l.same ∙ sym ia;
  held = l.held;
  absent = λ r m e. l.absent r m (e ∙ ib);
}

-- A row that is held beside an older one that is not terminal was leased before that one was there.
abbrev IsOrdered : ℕ → Outbox → Type 0
IsOrdered max box =
    (a b : Work)
    → IsIn a box.rows
    → IsIn b box.rows
    → IsHeld a
    → is_older_sibling a b ≡ true
    → LeasedBefore max box a b

-- A change of the rows, one by one, that gives a lease to oldest rows only.
map-IsOrdered :
    (max : ℕ) (box after : Outbox) (f : Work → Work)
    → Step max box after
    → after.rows ≡ map f box.rows
    → Keeps f
    → ((w : Work) → IsIn w box.rows → IsHeld (f w) → IsHeld w ⊎ IsOldest box.rows w)
    → IsOrdered max box
    → IsOrdered max after
map-IsOrdered max box after f s rows k gives v a b in_a in_b held older =
    let (a', ma, ea) = IsIn-map f a box.rows (subst (IsIn a) rows in_a) in
    let (b', mb, eb) = IsIn-map f b box.rows (subst (IsIn b) rows in_b) in
    let ia : a.id ≡ a'.id = sym (ap (λ w. w.id) ea) ∙ k.same_id a' in
    let ib : b.id ≡ b'.id = sym (ap (λ w. w.id) eb) ∙ k.same_id b' in
    elim (Bool-cases (is_older_sibling a' b')) [
      | inr no_older ↦
          let kept = Keeps-sibling f a' b' k no_older in
          let both : is_older_sibling a b ≡ false =
            subst (λ x. is_older_sibling x b ≡ false) ea
              (subst (λ x. is_older_sibling (f a') x ≡ false) eb kept) in
          absurd (ground arith)
      | inl was_older ↦ elim (gives a' ma (subst IsHeld (sym ea) held)) [
        | inl was ↦
            LeasedBefore-onward max box after a' b' a b s ia ib (v a' b' ma mb was was_older)
        | inr oldest ↦ absurd (ground (arith, oldest b' mb))
      ]
    ]

Step-IsOrdered :
    (max : ℕ) (box after : Outbox)
    → Reach max box
    → Step max box after
    → IsOrdered max box
    → IsOrdered max after
unfolding new_work
Step-IsOrdered max box after r s v = from (step-Effect max box after s)
  where
    from : Effect max box.rows after.rows → IsOrdered max after
    from (unchanged e) = λ a b in_a in_b held older.
        LeasedBefore-onward max box after a b a b s refl refl
          (v a b (subst (IsIn a) e in_a) (subst (IsIn b) e in_b) held older)
    from (added work_id inbound_id now key fresh e) = λ a b in_a in_b held older.
        elim (IsIn-append a _ box.rows (subst (IsIn a) e in_a)) [
          | inr ea ↦ absurd (ground (arith, ap (λ (w : Work). w.lease_expires_at) ea, held.1))
          | inl ma ↦ elim (IsIn-append b _ box.rows (subst (IsIn b) e in_b)) [
            | inl mb ↦
                LeasedBefore-onward max box after a b a b s refl refl (v a b ma mb held older)
            | inr eb ↦ record {
              earlier = box;
              reached = r;
              later = onward {between = box} (at_once box) s;
              row = a;
              is_there = ma;
              same = refl;
              held = held;
              absent = λ x m i. fresh x m (i ∙ sym (ap (λ (w : Work). w.id) eb));
            }
          ]
        ]
    from (leased now until worker locked limit one e) =
        map-IsOrdered max box after _ s e (claimed_row-Keeps _ _)
          (λ w m. claimed_row-held _ locked limit box.rows w (Reach-IsKeyed max box r) m) v
    from (reported id worker clock w change m live rep e) =
        let (k, gives) = Report-Keeps w change rep in
        map-IsOrdered max box after _ s e (at_id-Keeps w.id change k)
          (λ x i h. inl (at_id-held w.id change x gives h)) v

Reach-IsOrdered : (max : ℕ) (box : Outbox) → Reach max box → IsOrdered max box
Reach-IsOrdered max box start = λ a b in_a. absurd in_a
Reach-IsOrdered max box (next {box = before} r s) =
    Step-IsOrdered max before box r s (Reach-IsOrdered max before r)

-- However the workers claim, report, crash and are sent new messages, at most one row of a
-- conversation is leased. It is the oldest of those that are not terminal, but for older ones that were
-- not in the table yet when it was leased already.
pub one_lease :
    (max : ℕ) (box : Outbox) (a b : Work)
    → Reach max box
    → IsIn a box.rows
    → IsHeld a
    → IsIn b box.rows
    → a.conversation_key ≡ b.conversation_key
    → is_terminal b ≡ false
    → (a ≡ b)
      ⊎ ((is_none b.lease_expires_at ≡ true)
          × ((is_older_sibling b a ≡ true) ⊎ LeasedBefore max box a b))
one_lease max box a b r in_a held in_b key live = elim (Bool-cases (is_none b.lease_expires_at)) [
  | inr taken ↦ inl (
      Reach-IsKeyed max box r a b in_a in_b
        (Reach-IsExclusive max box r a b in_a in_b held (live, taken) key))
  | inl free ↦ elim (Bool-cases (is_older_sibling b a)) [
    | inl older ↦ inr (free, inl older)
    | inr not_older ↦ elim (Bool-cases (is_older_sibling a b)) [
      | inl younger ↦ inr (free, inr (Reach-IsOrdered max box r a b in_a in_b held younger))
      | inr same ↦
          inl (
            Reach-IsKeyed max box r a b in_a in_b
              (older_or_same a b key held.0 live same not_older))
    ]
  ]
]
