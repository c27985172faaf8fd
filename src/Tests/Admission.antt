-- ===== src/Tests/Admission.antt =====
-- One slot, and two turns that want it.
use agents_system.Prelude.{◌-◌, ◌≤◌, ok, ◌≡◌, ◌⊎◌, refl, ltb}
use agents_system.Admission
use agents_system.Admission.{
  Limiter, World, Reach, arrive, admit, here, next, available, try_acquire, release,
}
use agents_system.Admission.Bound.{slots_bounded}

runs : Unit {0}
unfolding Admission.init try_acquire release available
runs = tt

abbrev free : Limiter
free = record { max_concurrent_turns = 1; in_flight = 0 }

abbrev taken : Limiter
taken = record { max_concurrent_turns = 1; in_flight = 1 }

abbrev start : World
start = record { limiter = free; waiting = 0; running = 0 }

abbrev one_waits : World
one_waits = record { limiter = free; waiting = 1; running = 0 }

abbrev two_wait : World
two_wait = record { limiter = free; waiting = 2; running = 0 }

abbrev one_runs : World
one_runs = record { limiter = taken; waiting = 1; running = 1 }

path : Reach start one_runs
unfolding runs
path =
    next two_wait one_runs
      (next one_waits two_wait (next start one_waits here (arrive free 0 0)) (arrive free 1 0))
      (admit free taken 1 0 refl)

slots_bounded_example :
    (taken.in_flight ≡ 1)
    × (1 ≤ 1)
    × (available taken ≡ 1 - 1)
    × ((try_acquire taken).0 ≡ ltb 1 1)
    × ((one_runs.running ≡ 0) ⊎ ((l' : Limiter) × (release taken ≡ ok l')))
unfolding runs
slots_bounded_example = slots_bounded 1 free one_runs refl path
