-- ===== src/Proactive/Queue/Counts.antt =====
-- How many messages of the queue of proactive.py have a given id, and how many of them wait.
use agents_system.Prelude.{
  ℕ, ◌≤◌, ◌==◌, Bool, true, false, ◌&&◌, some, string_eq, nat_eq, List, [], ◌∷◌, ◌∙◌, ◌≡◌, refl,
  arith, if◌then◌else◌, ltb, keep_if, count_if, All, Bool-cases, inl, inr,
}
use agents_system.Proactive.Queue.{
  Message, replace, is_queued, expire, expire_each, is_due, due_at, earliest, find,
}

-- Messages with an id, and those of them that wait to be claimed.
abbrev pub total : ℕ → List Message → ℕ
total i = count_if (λ m. m.id == i)

abbrev pub waiting : ℕ → List Message → ℕ
waiting i = count_if (λ m. m.id == i && is_queued m.status)

module _ (id : ℕ) (change : Message → Message) (keeps : (m : Message) → (change m).id ≡ m.id) where
  pub total-replace : (i : ℕ) (ms : List Message) → total i (replace id change ms) ≡ total i ms
  unfolding replace
  total-replace i [] = refl
  total-replace i (m ∷ ms) = ground (arith, keeps m, total-replace i ms)

  -- A change to a status that is not `queued` leaves nothing waiting under that id.
  pub waiting-replace_closed :
      ((m : Message) → is_queued (change m).status ≡ false)
      → (i : ℕ) (ms : List Message)
      → waiting i (replace id change ms) ≡ (if i == id then 0 else waiting i ms)
  unfolding replace
  waiting-replace_closed closed i [] = ground arith
  waiting-replace_closed closed i (m ∷ ms) =
      ground (arith, keeps m, closed m, waiting-replace_closed closed i ms)

  pub waiting-replace_open :
      ((m : Message) → is_queued (change m).status ≡ true)
      → (i : ℕ) (ms : List Message)
      → waiting i (replace id change ms) ≡ (if i == id then total i ms else waiting i ms)
  unfolding replace
  waiting-replace_open opened i [] = ground arith
  waiting-replace_open opened i (m ∷ ms) =
      ground (arith, keeps m, opened m, waiting-replace_open opened i ms)

module _ (i : ℕ) where
  pub total-expire_each :
      (expired ms : List Message) → total i (expire_each expired ms) ≡ total i ms
  unfolding expire_each expire
  total-expire_each [] ms = refl
  total-expire_each (m ∷ expired) ms =
      total-expire_each expired (replace m.id expire ms)
      ∙ total-replace m.id expire (λ m. refl) i ms

  pub waiting-expire_each-le :
      (expired ms : List Message) → waiting i (expire_each expired ms) ≤ waiting i ms
  unfolding expire_each expire is_queued
  waiting-expire_each-le [] ms = omega arith
  waiting-expire_each-le (m ∷ expired) ms = ground (
    arith,
    waiting-expire_each-le expired (replace m.id expire ms),
    waiting-replace_closed m.id expire (λ m. refl) (λ m. refl) i ms,
  )

  pub total-find : (ms : List Message) (m : Message) → find i ms ≡ some m → m.id ≡ i
  unfolding find
  total-find [] m h = absurd (cc)
  total-find (x ∷ xs) m h = ground (arith, total-find xs m)

-- What `min` chooses has every property that the candidates share.
pub earliest-All :
    (P : Message → Type 0) (now : ℕ) (best : Message) (ms : List Message)
    → P best
    → All P ms
    → P (earliest now best ms)
unfolding earliest
earliest-All P now best [] b a = b
earliest-All P now best (m ∷ ms) b (h, a) =
    elim (Bool-cases (ltb (due_at now m) (due_at now best))) [
      | inl sooner ↦ rw sooner (earliest-All P now m ms h a)
      | inr later ↦ rw later (earliest-All P now best ms b a)
    ]

-- Every due message is one that waits.
pub due-waiting :
    (now : ℕ) (xs ys : List Message)
    → ((p : Message → Bool) → count_if p xs ≤ count_if p ys)
    → All (λ m. 1 ≤ waiting m.id ys) (keep_if (is_due now) xs)
unfolding is_due
due-waiting now [] ys h = tt
due-waiting now (x ∷ xs) ys h =
    let rest : All (λ m. 1 ≤ waiting m.id ys) (keep_if (is_due now) xs) =
      due-waiting now xs ys (λ p. ground (arith, h p)) in
    elim (Bool-cases (is_due now x)) [
      | inl due ↦ rw due (ground (arith, h (λ m. m.id == x.id && is_queued m.status)), rest)
      | inr other ↦ rw other rest
    ]
