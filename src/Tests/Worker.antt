-- ===== src/Tests/Worker.antt =====
-- A deployment with one channel and one agent, whose worker serves two messages of a conversation.
use agents_system.Prelude.{
  ◌+◌, ◌≤◌, true, false, none, some, string_eq, nat_eq, [], ◌∷◌, ◌≡◌, ◌≢◌, refl, inl, arith, ok,
  All, Some, count_if, String_discrete,
}
use agents_system.Admission.{Limiter}
use agents_system.Outbox.Settle.{ratio}
use agents_system.Outbox.Replies.{Later}
use agents_system.Worker.{
  text, assistant, Participant, normalized, Directory, Policy, TurnRequest, Binding, Worker,
  Answers, ran_turn,
}
use agents_system.Worker.Process
use agents_system.Worker.Process.{process_claimed_work}
use agents_system.Worker.Courses.{IsAuthorized}
use agents_system.Worker.Acts.{is_turn, is_send}
use agents_system.Worker.Turns.{process-IsOneTurn}
use agents_system.Worker.Commits.{IsCommitted}
use agents_system.Worker.Committed.{process-AreCommitted}
use agents_system.Worker.Poll.{process_available}
use agents_system.Worker.Poll.Slots.{process_available-IsEven}
use agents_system.Worker.Setup
use agents_system.Worker.Setup.{aware, Given, init}
use agents_system.Worker.Setup.Channels.{HasChannels, IsTold, init-IsBound}
use agents_system.Tests.Json.{encode, decode, decode-encode}
use agents_system.Tests.Outbox.{leased_hello, leased_box, two_rows, nobody, reach_leased}

abbrev policy : Policy
policy = record { max_attempts = 2; is_transient = λ exn. some true; fallback_reply = "sorry" }

abbrev participant : Participant
participant = record { id = 3; active = true }

abbrev directory : Directory
directory = record {
  normalize = λ raw channel. normalized raw;
  resolve = λ at channel. ok (some participant);
}

abbrev binding : Binding
binding = record {
  extract_turn = λ payload key. ok (some (record { sender = "ana"; text = "hi" }));
  run_turn = λ req. ok (assistant false (text "hola") ∷ []);
  send_text = λ to body. none;
  persist_conversation = true;
  checkpointer_enabled = true;
  policy = policy;
}

abbrev worker : Worker
worker = record {
  worker_id = "w1";
  directory = some directory;
  channels = ("whatsapp", binding) ∷ [];
  has_recorder = true;
  has_notifier = false;
  default_policy = policy;
  encode = encode;
  decode = decode;
}

abbrev answers : Answers
answers = record {
  load_error = none;
  intent_at = 15;
  intent_error = none;
  end_now = 20;
  end_at = 20;
  end_error = none;
  failure_now = 20;
  failure_at = 20;
  failure_error = none;
  jitter = ratio 1 1;
  fallback_now = 21;
  fallback_error = none;
}

process-IsOneTurn_example :
    (count_if is_turn (process_claimed_work worker answers leased_hello leased_box).0 ≤ 1)
    × (count_if is_send (process_claimed_work worker answers leased_hello leased_box).0 ≤ 1)
    × ((req : TurnRequest)
        → Some
            (λ act. act ≡ ran_turn req)
            (process_claimed_work worker answers leased_hello leased_box).0
        → (b : Binding) × IsAuthorized worker leased_hello leased_box b req)
process-IsOneTurn_example = process-IsOneTurn worker answers leased_hello leased_box

process-AreCommitted_example :
    All
      (IsCommitted worker 1 (process_claimed_work worker answers leased_hello leased_box).1)
      (process_claimed_work worker answers leased_hello leased_box).0
process-AreCommitted_example =
    process-AreCommitted worker answers leased_hello leased_box 2 reach_leased (inl refl)
      decode-encode

abbrev one_free : Limiter
one_free = record { max_concurrent_turns = 3; in_flight = 2 }

process_available-IsEven_example :
    let p = process_available worker (λ id. answers) none 10 nobody 30 2 5 one_free two_rows in
    (p.claimed ≤ 5)
    × (2 + p.claimed ≤ 3)
    × (p.held ≡ ok (record one_free { in_flight = 2 + p.claimed }))
    × (p.limiter ≡ ok one_free)
    × Later 2 two_rows p.box
process_available-IsEven_example =
    process_available-IsEven worker (λ id. answers) none 10 nobody 30 2 5 one_free two_rows
      (omega arith)

abbrev given : Given
given = record {
  worker_id = "w1";
  directory = some (aware directory);
  runtime = some (record { run_turn = binding.run_turn; persist_conversation = true });
  whatsapp_client = some (λ to text. none);
  read_whatsapp = λ payload key. ok none;
  checkpointer_enabled = false;
  retry_policy = none;
  channels = ("web", binding) ∷ [];
  default_policy = policy;
}

abbrev whatsapp : Binding
whatsapp = record {
  extract_turn = λ payload key. ok none;
  run_turn = binding.run_turn;
  send_text = λ to text. none;
  persist_conversation = true;
  checkpointer_enabled = false;
  policy = policy;
}

abbrev setup : Setup.Setup
setup = record {
  channels = ("web", binding) ∷ ("whatsapp", whatsapp) ∷ [];
  directory = some directory;
}

set : init given ≡ ok setup
unfolding init Setup.bindings_of Setup.set_up Setup.channel_directory Process.find_binding
    String_discrete
set = refl

init-IsBound_example :
    (given.worker_id ≢ "")
    × (setup.channels ≢ [])
    × HasChannels given setup.channels
    × IsTold given.directory setup.channels setup.directory
init-IsBound_example = init-IsBound given setup set
