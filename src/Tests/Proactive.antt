-- ===== src/Tests/Proactive.antt =====
-- A message queued, claimed and sent; quiet hours.
use agents_system.Prelude.{
  ℕ, ◌+◌, ◌-◌, ◌*◌, Option, none, some, String, string_eq, nat_eq, String_discrete, ℕ_discrete,
  List, [], ◌∷◌, ok, ◌≡◌, refl, true, arith, ◌≤◌, ◌<◌, contains,
}
use agents_system.Dict
use agents_system.Dict.{Dict}
use agents_system.Permissions.Base.{Class, tier_rank, tier_of, Class_discrete, is_subclass, covers}
use agents_system.Permissions.Registry.{resolve}
use agents_system.Harness.Interceptor.{classes_of, intersect}
use agents_system.Proactive.Quiet.{minute, quiet_until, window_end, is_inside, time_of_day, day}
use agents_system.Proactive.Quiet.Ends.{quiet_until_exact, quiet_until_partial_minute}
use agents_system.Proactive.Queue
use agents_system.Proactive.Queue.{Message, Queue, sending}
use agents_system.Proactive.Queue.Counts.{waiting}
use agents_system.Proactive.Dispatch.{
  Policy, Limit, Recipient, ceiling_of, ceiling_for, permitted, submit, unconfigured,
  still_permitted, over_limit, guard, non_empty, verdict_to, decide, go, accepted,
}
use agents_system.Proactive.Dispatch.Checks.{IsStillGranted, IsFilled, decide_go}
use agents_system.Proactive.Dispatch.Room.{HasRoom}
use agents_system.Proactive.Delivery.{
  World, start, Dispatcher, submitted, claimed, called, Reach, here, next,
}
use agents_system.Proactive.Delivery.Invariant.{final_calls, at_most_once}
use agents_system.Tests.Permissions.{small, proactive}

runs : Unit {0}
unfolding tier_rank tier_of is_subclass covers resolve Dict.get Dict.put Dict.pop Class_discrete
    String_discrete ℕ_discrete classes_of intersect quiet_until window_end is_inside ceiling_of
    ceiling_for permitted submit still_permitted over_limit guard non_empty verdict_to decide
    Queue.replace Queue.enqueue Queue.is_sending Queue.is_queued Queue.is_attempted
    Queue.lease_lapsed Queue.is_expired Queue.expire Queue.expire_each Queue.expire_leases
    Queue.due_at Queue.is_due Queue.earliest Queue.find Queue.lease_to Queue.take Queue.claim_due
    Queue.claim Queue.same_subject Queue.claimed_since Queue.attempts_since
runs = tt

abbrev ceiling : Dict String (List Class)
ceiling = ("sales", proactive ∷ []) ∷ []

abbrev limit : Limit
limit = record { count = 2; window = 1_000 }

abbrev policy : Policy
policy = record {
  per_recipient = some limit;
  per_runtime = none;
  quiet_hours = none;
  tz = 0;
  recheck = 60_000_000;
}

abbrev recipient : Recipient
recipient = record { channel = some "whatsapp"; address = some "+57" }

abbrev queued : Queue
queued = Queue.enqueue 1 "sales" "participant:7" "hello" "scheduler:1" 10 Queue.empty

abbrev sent_message : Message
sent_message = record {
  id = 1;
  runtime_id = "sales";
  subject_key = "participant:7";
  text = "hello";
  actor = "scheduler:1";
  status = sending;
  available_at = some 10;
  lease_owner = some "w";
  lease_expires_at = some 140;
  last_error = none;
}

test_claim : (Queue.claim "w" 20 120 queued).0 ≡ some sent_message
unfolding runs
test_claim = refl

test_submit :
    submit small ceiling
      (some recipient)
      1
      "sales"
      "participant:7"
      "hello"
      "scheduler:1"
      ("send:proactive" ∷ [])
      10
      Queue.empty
    ≡ ok queued
unfolding runs
test_submit = refl

test_decide :
    decide small ceiling policy
      ("whatsapp" ∷ [])
      unconfigured
      (some recipient)
      sent_message
      20
      (Queue.claim "w" 20 120 queued).1
    ≡ ok (go "whatsapp" "+57")
unfolding runs
test_decide = refl

abbrev dispatcher : Dispatcher
dispatcher = record {
  registry = small;
  ceiling = ceiling;
  policy = policy;
  channels = "whatsapp" ∷ [];
}

abbrev submitted_world : World
submitted_world = record start { queue = queued }

abbrev claimed_world : World
claimed_world = record {
  queue = (Queue.claim "w" 20 120 queued).1;
  flights = record { message = sent_message; answer = none } ∷ [];
  calls = [];
}

abbrev sent_world : World
sent_world = record claimed_world {
  flights = record { message = sent_message; answer = some accepted } ∷ [];
  calls = record { id = 1; address = "+57"; answer = accepted } ∷ [];
}

sent_world-Reach : Reach dispatcher start sent_world
sent_world-Reach =
    next
      (next (next here (submitted start 1 "sales" "participant:7" "hello" "scheduler:1" 10 refl))
        (claimed submitted_world "w" 20 120 sent_message test_claim))
      (called claimed_world [] [] sent_message unconfigured (some recipient) 20 "whatsapp" "+57"
        accepted refl test_decide)

at_most_once_example :
    (final_calls 1 sent_world.calls ≤ 1)
    × (final_calls 1 sent_world.calls ≡ 1 → waiting 1 sent_world.queue.messages ≡ 0)
at_most_once_example = at_most_once dispatcher sent_world 1 sent_world-Reach

decide_go_example :
    IsStillGranted small ceiling unconfigured "sales"
    × ((to : Recipient) × (◌≡◌ {A = Option Recipient} (some recipient) (some to))
        × IsFilled to.channel "whatsapp"
        × IsFilled to.address "+57")
    × (contains {A = String} "whatsapp" ("whatsapp" ∷ []) ≡ true)
    × (quiet_until none 0 20 ≡ none)
    × HasRoom sent_message 20 claimed_world.queue (some "participant:7") (some limit)
    × HasRoom sent_message 20 claimed_world.queue none none
decide_go_example =
    decide_go small ceiling policy ("whatsapp" ∷ []) unconfigured (some recipient) sent_message 20
      claimed_world.queue "whatsapp" "+57" test_decide

-- 22:00 to 07:00 in UTC, asked at 23:00.
abbrev night : ℕ × ℕ
night = (79_200_000_000, 25_200_000_000)

test_quiet : quiet_until (some night) 0 82_800_000_000 ≡ some 111_600_000_000
unfolding runs
test_quiet = refl

quiet_until_exact_example :
    (82_800_000_000 < 111_600_000_000)
    × (111_600_000_000 ≤ 82_800_000_000 + day)
    × ((t : ℕ)
        → 82_800_000_000 ≤ t
        → t < 111_600_000_000
        → is_inside night.0 night.1 (time_of_day 0 t) ≡ true)
    × (quiet_until (some night) 0 111_600_000_000 ≡ none)
quiet_until_exact_example =
    quiet_until_exact night.0 night.1 0 82_800_000_000 111_600_000_000 (omega arith) (omega arith)
      (omega arith) (omega arith) test_quiet

quiet_until_partial_minute_example :
    (28_810_000_000 + day ≤ 115_200_000_000 + 2 * minute)
    × (quiet_until
          (some (79_200_000_000, 28_830_000_000))
          0
          (28_810_000_000 + (28_830_000_000 - time_of_day 0 28_810_000_000))
        ≡ none)
    × (28_830_000_000 - time_of_day 0 28_810_000_000 < minute)
unfolding runs
quiet_until_partial_minute_example =
    quiet_until_partial_minute 79_200_000_000 28_830_000_000 0 28_810_000_000 115_200_000_000
      (omega arith) (omega arith) (ground arith) refl (omega arith) (omega arith) refl
