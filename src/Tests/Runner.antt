-- ===== src/Tests/Runner.antt =====
-- A scheduled turn that is delivered.
use agents_system.Prelude.{
  false, none, some, [], ◌∷◌, ok, ◌≡◌, refl, string_eq, String_discrete, ℕ_discrete,
}
use agents_system.Dict
use agents_system.Permissions.Base.{
  Class, top, t2, tier_rank, tier_of, Class_discrete, is_subclass, covers,
}
use agents_system.Permissions.Registry.{Registry, resolve}
use agents_system.Harness.Interceptor.{classes_of, intersect}
use agents_system.Proactive.Quiet.{quiet_until}
use agents_system.Proactive.Queue
use agents_system.Proactive.Queue.{Queue}
use agents_system.Proactive.Dispatch.{ceiling_for, permitted, or_refuse, submit}
use agents_system.Schedules.Runner
use agents_system.Schedules.Runner.{Answers, Outcome, execute}
use agents_system.Schedules.Runner.Delivery.{IsSound}
use agents_system.Schedules.Runner.Guards.{IsAllowed, execute-IsSound}
use agents_system.Tests.Permissions.{proactive}
use agents_system.Tests.Schedules.{hourly}

runs : Unit {0}
unfolding tier_rank tier_of is_subclass covers resolve Dict.get Class_discrete String_discrete
    ℕ_discrete classes_of intersect quiet_until ceiling_for permitted or_refuse submit Queue.enqueue
    Runner.granted Runner.after_submit Runner.submit_raises Runner.deliver Runner.run_turn
    Runner.authorize Runner.in_window Runner.if_granted Runner.execute
runs = tt

abbrev write_schedule : Class
write_schedule = top 40 t2

abbrev registry : Registry
registry = record {
  by_name = ("send:proactive", proactive) ∷ ("write:schedule", write_schedule) ∷ [];
  by_class = (proactive, "send:proactive") ∷ (write_schedule, "write:schedule") ∷ [];
}

abbrev runner : Runner.Runner
runner = record {
  registry = registry;
  ceiling = ("sales", write_schedule ∷ []) ∷ [];
  limits = record { missed_grace_s = 1_800; quiet_hours = none; quiet_tz = 0 };
  runtimes = "sales" ∷ [];
  sender_ceiling = ("sales", proactive ∷ []) ∷ [];
}

abbrev answers : Answers
answers = record {
  authorized = Runner.Authorized.answers (some "participant:1");
  turn = Runner.ended false false "42 sales";
  checked =
      Runner.Checked.answers (some (record { channel = some "whatsapp"; address = some "+57" }));
  message_id = 1;
  actor = "scheduler:s1";
  clock = 20;
}

abbrev sent_queue : Queue
sent_queue = Queue.enqueue 1 "sales" "participant:1" "42 sales" "scheduler:s1" 20 Queue.empty

abbrev done : Outcome
done = record { status = Runner.delivered; reason = none }

test_delivered : execute runner answers hourly 10 20 Queue.empty ≡ ok (done, sent_queue)
unfolding runs
test_delivered = refl

execute-IsSound_example :
    IsSound (IsAllowed runner answers hourly 10 20 Queue.empty) Queue.empty (done, sent_queue)
execute-IsSound_example =
    execute-IsSound runner answers hourly 10 20 Queue.empty (done, sent_queue) test_delivered
