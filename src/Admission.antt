-- ===== src/Admission.antt =====
-- The bound on concurrent turns: `TurnAdmissionLimiter` of services/admission.py, and the turns that
-- hold its slots. `try_acquire` and the body of `release` await nothing once they hold the condition,
-- so each is one step; a waiter that is woken tries again.
pub mod Bound
use agents_system.Prelude.{
  ℕ, suc, ◌+◌, ◌-◌, ◌≡◌, Bool, true, false, Result, ok, err, if◌then◌else◌, ltb, leb,
}

pub data LimiterError : Type 0 where
  needs_a_slot no_turn_in_flight : LimiterError

pub record Limiter : Type 0 where
  pub max_concurrent_turns : ℕ
  pub in_flight : ℕ

-- `TurnAdmissionLimiter(n)`
unfoldable pub init : ℕ → Result LimiterError Limiter
init n =
    if ltb n 1 then err needs_a_slot else ok (record { max_concurrent_turns = n; in_flight = 0 })

unfoldable pub available : Limiter → ℕ
available l = l.max_concurrent_turns - l.in_flight

unfoldable pub try_acquire : Limiter → Bool × Limiter
try_acquire l =
    if leb l.max_concurrent_turns l.in_flight
    then (false, l)
    else (true, record l { in_flight = l.in_flight + 1 })

unfoldable pub release : Limiter → Result LimiterError Limiter
release l =
    if leb l.in_flight 0
    then err no_turn_in_flight
    else ok (record l { in_flight = l.in_flight - 1 })

-- The limiter, the turns that wait in `acquire`, and those that hold a slot.
pub record World : Type 0 where
  pub limiter : Limiter
  pub waiting : ℕ
  pub running : ℕ

-- What the turns do: come to `acquire`, give up while they wait, get a slot there or by `try_acquire`,
-- and release it, as `slot` does however the turn ends.
pub data Step : World → World → Type 0 where
  arrive :
      (l : Limiter) (waiting running : ℕ)
      → Step
          (record { limiter = l; waiting = waiting; running = running })
          (record { limiter = l; waiting = suc waiting; running = running })
  give_up :
      (l : Limiter) (waiting running : ℕ)
      → Step
          (record { limiter = l; waiting = suc waiting; running = running })
          (record { limiter = l; waiting = waiting; running = running })
  admit :
      (l l' : Limiter) (waiting running : ℕ)
      → try_acquire l ≡ (true, l')
      → Step
          (record { limiter = l; waiting = suc waiting; running = running })
          (record { limiter = l'; waiting = waiting; running = suc running })
  take :
      (l l' : Limiter) (waiting running : ℕ)
      → try_acquire l ≡ (true, l')
      → Step
          (record { limiter = l; waiting = waiting; running = running })
          (record { limiter = l'; waiting = waiting; running = suc running })
  finish :
      (l l' : Limiter) (waiting running : ℕ)
      → release l ≡ ok l'
      → Step
          (record { limiter = l; waiting = waiting; running = suc running })
          (record { limiter = l'; waiting = waiting; running = running })

pub data Reach (from : World) : World → Type 0 where
  here : Reach from from
  next : (a b : World) → Reach from a → Step a b → Reach from b
