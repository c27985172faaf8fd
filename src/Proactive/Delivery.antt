-- ===== src/Proactive/Delivery.antt =====
-- Workers over one queue: `run_once` and `_dispatch` of proactive.py as steps that interleave.
--
-- A flight is a message that a worker has claimed and not yet put down, with the provider's answer
-- once it is known. A worker may die at any point of a flight. Any clock, any answer of the
-- directory, of the permission lookup and of the provider may come with any step.
pub mod Invariant
use agents_system.Prelude.{
  ℕ, ◌==◌, Bool, true, false, ◌&&◌, Option, none, some, String, nat_eq, List, [], ◌∷◌, ◌++◌, Result,
  ok, ◌≡◌, count_if,
}
use agents_system.Dict.{Dict}
use agents_system.Permissions.Base.{Class}
use agents_system.Permissions.Registry.{Registry}
use agents_system.Proactive.Queue
use agents_system.Proactive.Queue.{Message, Queue, enqueue, expire_leases, claim}
use agents_system.Proactive.Queue.Counts.{total}
use agents_system.Proactive.Dispatch.{
  Policy, Recipient, Lookup, Verdict, refuse, hold, go, Failing, Hold, Answer, accepted, rejected,
  unknown, rate_limited, decide, settle, end_unsent,
}

pub record Flight : Type 0 where
  pub message : Message
  pub answer : Option Answer

pub record Call : Type 0 where
  pub id : ℕ
  pub address : String
  pub answer : Answer

pub record World : Type 0 where
  pub queue : Queue
  pub flights : List Flight
  pub calls : List Call

abbrev pub start : World
start = record { queue = Queue.empty; flights = []; calls = [] }

-- the configuration of a `ProactiveDispatcher`
pub record Dispatcher : Type 0 where
  pub registry : Registry
  pub ceiling : Dict String (List Class)
  pub policy : Policy
  pub channels : List String

-- what `_dispatch` decides on a claimed message
abbrev pub Decides : Dispatcher → Lookup → Option Recipient → Message → ℕ → Queue → Verdict → Type 0
Decides d lookup directory m now q v =
    decide d.registry d.ceiling d.policy d.channels lookup directory m now q ≡ ok v

pub data Step (d : Dispatcher) : World → World → Type 0 where
  -- `submit`: `uuid4` draws an id that no message has
  submitted :
      (w : World) (id : ℕ) (runtime_id subject_key text actor : String) (available_at : ℕ)
      → total id w.queue.messages ≡ 0
      → Step d w
          (record w { queue = enqueue id runtime_id subject_key text actor available_at w.queue })
  lapsed : (w : World) (now : ℕ) → Step d w (record w { queue = (expire_leases now w.queue).1 })
  idle :
      (w : World) (worker_id : String) (now lease : ℕ)
      → (claim worker_id now lease w.queue).0 ≡ none
      → Step d w (record w { queue = (claim worker_id now lease w.queue).1 })
  claimed :
      (w : World) (worker_id : String) (now lease : ℕ) (m : Message)
      → (claim worker_id now lease w.queue).0 ≡ some m
      → Step d w (record w {
        queue = (claim worker_id now lease w.queue).1;
        flights = record { message = m; answer = none } ∷ w.flights;
      })
  refused :
      (w : World) (before after : List Flight) (m : Message) (lookup : Lookup)
      (directory : Option Recipient) (now : ℕ) (reason : Failing)
      → w.flights ≡ before ++ record { message = m; answer = none } ∷ after
      → Decides d lookup directory m now w.queue (refuse reason)
      → Step d w
          (record w { queue = end_unsent m (refuse reason) w.queue; flights = before ++ after })
  held :
      (w : World) (before after : List Flight) (m : Message) (lookup : Lookup)
      (directory : Option Recipient) (now until : ℕ) (reason : Hold)
      → w.flights ≡ before ++ record { message = m; answer = none } ∷ after
      → Decides d lookup directory m now w.queue (hold until reason)
      → Step d w
          (record w { queue = end_unsent m (hold until reason) w.queue; flights = before ++ after })
  called :
      (w : World) (before after : List Flight) (m : Message) (lookup : Lookup)
      (directory : Option Recipient) (now : ℕ) (channel address : String) (answer : Answer)
      → w.flights ≡ before ++ record { message = m; answer = none } ∷ after
      → Decides d lookup directory m now w.queue (go channel address)
      → Step d w (record w {
        flights = before ++ record { message = m; answer = some answer } ∷ after;
        calls = record { id = m.id; address = address; answer = answer } ∷ w.calls;
      })
  settled :
      (w : World) (before after : List Flight) (m : Message) (answer : Answer) (now : ℕ)
      → w.flights ≡ before ++ record { message = m; answer = some answer } ∷ after
      → Step d w (record w { queue = settle m now answer w.queue; flights = before ++ after })
  died :
      (w : World) (before after : List Flight) (f : Flight)
      → w.flights ≡ before ++ f ∷ after
      → Step d w (record w { flights = before ++ after })

pub data Reach (d : Dispatcher) (w : World) : World → Type 0 where
  here : Reach d w w
  next : {v u : World} → Reach d w v → Step d v u → Reach d w u
