-- ===== src/Worker/Setup.antt =====
-- The constructor of `DeferredWebhookWorker`, `_channel_directory`, and `start`, `stop` and
-- `is_running` of services/webhook_worker.py. A mapping of channels is a list without repeated names.
pub mod Channels
use agents_system.Prelude.{
  ℕ, max, ◌==◌, ◌&&◌, ◌||◌, Bool, true, false, not, string_eq, Option, none, some, String, List, [],
  ◌∷◌, ◌++◌, if◌then◌else◌, any, is_none, Result, ok, err, ◌>>=◌, ◌>>◌,
}
use agents_system.Outbox.{legacy_channel}
use agents_system.Worker.{
  Exn, Message, Turn, Participant, Normalized, Directory, Policy, TurnRequest, Binding, Worker,
}
use agents_system.Worker.Process.{find_binding}

pub data SetupError : Type 0 where
  empty_worker_id runtime_without_client bound_twice no_binding : SetupError
  needs_channel_directory : SetupError

-- A directory that is told the channel, or one that is not.
pub data Known : Type 0 where
  aware : Directory → Known
  blind :
      (normalize : String → Normalized) (resolve : String → Result Exn (Option Participant)) → Known

-- what a runtime brings to a binding
pub record Runtime : Type 0 where
  pub run_turn : TurnRequest → Result Exn (List Message)
  pub persist_conversation : Bool

-- The arguments of the constructor that concern the channels; `read_whatsapp` is what the built-in
-- adapter reads.
pub record Given : Type 0 where
  pub worker_id : String
  pub directory : Option Known
  pub runtime : Option Runtime
  pub whatsapp_client : Option (String → String → Option Exn)
  pub read_whatsapp : String → String → Result Exn (Option Turn)
  pub checkpointer_enabled : Bool
  pub retry_policy : Option Policy
  pub channels : List (String × Binding)
  pub default_policy : Policy

-- `_WhatsAppOnlyDirectory`
unfoldable pub whatsapp_only :
    (String → Normalized) → (String → Result Exn (Option Participant)) → Directory
whatsapp_only normalize resolve = record {
  normalize = λ raw channel. normalize raw;
  resolve = λ address channel. resolve address;
}

-- `_channel_directory`
unfoldable pub channel_directory :
    Option Known → List (String × Binding) → Result SetupError (Option Directory)
unfolding whatsapp_only
channel_directory none channels = ok none
channel_directory (some (aware d)) channels = ok (some d)
channel_directory (some (blind normalize resolve)) channels =
    if any (λ c. not (c.0 == legacy_channel)) channels
    then err needs_channel_directory
    else ok (some (whatsapp_only normalize resolve))

abbrev pub or_default : Policy → Option Policy → Policy
or_default p none = p
or_default p (some q) = q

-- the bindings, the built-in one last
unfoldable pub bindings_of : Given → Result SetupError (List (String × Binding))
unfolding find_binding
bindings_of g = elim g.runtime [
  | none ↦ if is_none g.whatsapp_client then ok g.channels else err runtime_without_client
  | some runtime ↦ elim g.whatsapp_client [
    | none ↦ err runtime_without_client
    | some send ↦
        if is_none (find_binding legacy_channel g.channels)
        then ok (
            g.channels
            ++ ((
              legacy_channel,
              record {
                extract_turn = g.read_whatsapp;
                run_turn = runtime.run_turn;
                send_text = send;
                persist_conversation = runtime.persist_conversation;
                checkpointer_enabled = g.checkpointer_enabled;
                policy = or_default g.default_policy g.retry_policy;
              },
            )
                ∷ []))
        else err bound_twice
  ]
]

abbrev pub check_some : List (String × Binding) → Result SetupError (Unit {0})
check_some [] = err no_binding
check_some (c ∷ cs) = ok tt

-- What the constructor keeps of the channels: the bindings and the directory that is asked.
pub record Setup : Type 0 where
  pub channels : List (String × Binding)
  pub directory : Option Directory

-- the directory for the bindings
unfoldable pub set_up : Option Known → List (String × Binding) → Result SetupError Setup
unfolding channel_directory
set_up known channels =
    check_some channels
    >> (channel_directory known channels >>= λ directory.
        ok (record { channels = channels; directory = directory }))

-- `DeferredWebhookWorker.__init__`
unfoldable pub init : Given → Result SetupError Setup
unfolding bindings_of set_up
init g = if g.worker_id == "" then err empty_worker_id else bindings_of g >>= set_up g.directory

-- `max(binding.retry_policy.max_attempts for binding in bindings.values())`
unfoldable pub claim_max_attempts : List (String × Binding) → ℕ
claim_max_attempts [] = 0
claim_max_attempts ((name, b) ∷ bs) = max b.policy.max_attempts (claim_max_attempts bs)

-- The poll loop: whether `start` was called last, and whether there is a task that is done.
pub record Loop : Type 0 where
  pub started : Bool
  pub task_done : Option Bool

-- `is_running`
unfoldable pub is_running : Loop → Bool
is_running l = l.started && (elim l.task_done [ none ↦ false | some finished ↦ not finished ])

-- `start`
unfoldable pub start : Loop → Loop
start l = if l.started then l else record { started = true; task_done = some false }

-- `stop`
unfoldable pub stop : Loop → Loop
stop l = if l.started then record { started = false; task_done = none } else l
