-- ===== src/Admission/Bound.antt =====
-- The slots of services/admission.py, over the steps of the turns.
use agents_system.Prelude.{ℕ, ◌≤◌, ◌≡◌, ok, arith, ◌⊎◌, ◌-◌, Bool-cases, inl, inr, ltb, leb}
use agents_system.Admission.{
  Limiter, init, available, try_acquire, release, World, Step, arrive, give_up, admit, take, finish,
  Reach, here, next,
}

-- The limiter counts the turns that run, and they are no more than its bound, which is the one it was
-- made with.
abbrev pub IsBounded : ℕ → World → Type 0
IsBounded max w =
    (w.limiter.in_flight ≡ w.running) × (w.running ≤ max) × (w.limiter.max_concurrent_turns ≡ max)

Step-IsBounded : (max : ℕ) (a b : World) → Step a b → IsBounded max a → IsBounded max b
unfolding try_acquire release
Step-IsBounded max a b (arrive l waiting running) h = h
Step-IsBounded max a b (give_up l waiting running) h = h
Step-IsBounded max a b (admit l l' waiting running e) (c, le, m) =
    (ground arith, ground arith, ground arith)
Step-IsBounded max a b (take l l' waiting running e) (c, le, m) =
    (ground arith, ground arith, ground arith)
Step-IsBounded max a b (finish l l' waiting running e) (c, le, m) =
    (ground arith, ground arith, ground arith)

Reach-IsBounded : (max : ℕ) (a b : World) → Reach a b → IsBounded max a → IsBounded max b
Reach-IsBounded max a b here h = h
Reach-IsBounded max a b (next v w path step) h =
    Step-IsBounded max v b step (Reach-IsBounded max a v path h)

-- Whatever the turns do, the limiter counts those that run, and they are never more than the bound it
-- was made with. A slot is free exactly while fewer run, and `available` is how many more may
-- start; a turn that runs can always release its slot.
pub slots_bounded :
    (max : ℕ) (l : Limiter) (w : World)
    → init max ≡ ok l
    → Reach (record { limiter = l; waiting = 0; running = 0 }) w
    → (w.limiter.in_flight ≡ w.running)
      × (w.running ≤ max)
      × (available w.limiter ≡ max - w.running)
      × ((try_acquire w.limiter).0 ≡ ltb w.running max)
      × ((w.running ≡ 0) ⊎ ((l' : Limiter) × (release w.limiter ≡ ok l')))
unfolding init available try_acquire release
slots_bounded max l w h path =
    let start : World = record { limiter = l; waiting = 0; running = 0 } in
    let (count, le, same) =
      Reach-IsBounded max start w path (ground arith, omega arith, ground arith) in
    (
      count,
      le,
      ground arith,
      ground arith,
      elim (Bool-cases (leb w.limiter.in_flight 0)) [
        | inl idle ↦ inl (ground arith)
        | inr busy ↦ inr (record w.limiter { in_flight = w.limiter.in_flight - 1 }, ground arith)
      ],
    )
