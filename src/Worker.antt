-- ===== src/Worker.antt =====
-- The deferred worker of services/webhook_worker.py: its bindings and what it has to do with, the
-- texts it reads, and its failures. What an adapter, a runtime, a directory, a classifier and JSON
-- answer are functions of the deployment.
pub mod Failures
pub mod Process
pub mod Courses
pub mod Acts
pub mod Turns
pub mod Transactions
pub mod Commits
pub mod Fallbacks
pub mod Committed
pub mod Poll
pub mod Setup
use agents_system.Prelude.{
  ℕ, ◌==◌, ◌&&◌, ◌||◌, Bool, true, false, not, Option, none, some, String, string_eq, nat_eq, List,
  [], ◌∷◌, ◌++◌, ◌&◌, if◌then◌else◌, is_none, Result, ok, err,
}
use Prim.Native.String as Text
use agents_system.Outbox.{
  Work, Inbound, Outbox, OutboxError, value_error, lease_lost, legacy_channel,
}
use agents_system.Outbox.Settle.{
  Jitter, Failure, FailureOutcome, record_outbox_failure, complete_outbox_work,
  record_fallback_delivery,
}

-- An exception: its class, its text, and whether it is a `_RetryableCondition`.
pub record Exn : Type 0 where
  pub class_name : String
  pub message : String
  pub is_condition : Bool

-- A message of a conversation; the blocks of a list are the texts of those that are dicts.
pub data Content : Type 0 where
  text : String → Content
  blocks : List (Option String) → Content

pub data Message : Type 0 where
  assistant : (calls_tools : Bool) (content : Content) → Message
  other : Message

pub record Turn : Type 0 where
  pub sender : String
  pub text : String

pub record Participant : Type 0 where
  pub id : ℕ
  pub active : Bool

pub data Normalized : Type 0 where
  normalized : String → Normalized
  invalid : Normalized
  raised : Exn → Normalized

-- `ChannelParticipantDirectory`
pub record Directory : Type 0 where
  pub normalize : String → String → Normalized
  pub resolve : String → String → Result Exn (Option Participant)

-- `OutboxRetryPolicy`; a classifier that raises answers nothing
pub record Policy : Type 0 where
  pub max_attempts : ℕ
  pub is_transient : Exn → Option Bool
  pub fallback_reply : String

-- What a turn is asked with: its text, its session, its thread, its subject and its channel.
pub record TurnRequest : Type 0 where
  pub text : String
  pub session_id : String
  pub thread_id : Option String
  pub participant_id : ℕ
  pub channel : String
  pub address : String

-- `ChannelBinding`
pub record Binding : Type 0 where
  pub extract_turn : String → String → Result Exn (Option Turn)
  pub run_turn : TurnRequest → Result Exn (List Message)
  pub send_text : String → String → Option Exn
  pub persist_conversation : Bool
  pub checkpointer_enabled : Bool
  pub policy : Policy

-- `DeferredWebhookWorker`, with `OutboxRetryPolicy()` and what JSON makes of a reply's two fields
pub record Worker : Type 0 where
  pub worker_id : String
  pub directory : Option Directory
  pub channels : List (String × Binding)
  pub has_recorder : Bool
  pub has_notifier : Bool
  pub default_policy : Policy
  pub encode : String → String → String
  pub decode : String → Option (String × String)

-- What the database answers while one row is processed: its clock, in each transaction the first
-- reading and that of the `WHERE`, the exceptions of its own, and the jitter that is drawn.
pub record Answers : Type 0 where
  pub load_error : Option Exn
  pub intent_at : ℕ
  pub intent_error : Option Exn
  pub end_now : ℕ
  pub end_at : ℕ
  pub end_error : Option Exn
  pub failure_now : ℕ
  pub failure_at : ℕ
  pub failure_error : Option Exn
  pub jitter : Jitter
  pub fallback_now : ℕ
  pub fallback_error : Option Exn

-- What the worker does to the world outside the outbox.
pub data Act : Type 0 where
  ran_turn : TurnRequest → Act
  recorded : (thread user_text assistant_text : String) → Act
  sent : (to body : String) (delivered : Bool) → Act
  counted : (channel : String) (exn : Exn) (permanent : Bool) → Act
  notified : (error : String) → Act

-- What was done, in order, and the tables after it.
abbrev pub Done : Type 0
Done = List Act × Outbox

-- `channel_native_key` of services/outbox.py, with `str.removeprefix`
unfoldable pub channel_native_key : String → String → String
channel_native_key channel scoped_key =
    let prefix = channel & ":" in
    if channel == legacy_channel
    then scoped_key
    else if Text.slice scoped_key 0 (Text.len prefix) == prefix
    then Text.slice scoped_key (Text.len prefix) (Text.len scoped_key)
    else scoped_key

-- `_persisted_reply`
unfoldable pub persisted_reply : Worker → Work → Option ((String × String) × String)
persisted_reply d work = elim work.outbound_body [
  | none ↦ none
  | some body ↦ elim work.outbound_send_key [
    | none ↦ none
    | some key ↦
        if key == ""
        then none
        else (elim (d.decode body) [ none ↦ none | some reply ↦ some (reply, key) ])
  ]
]

-- `" ".join(...)`
unfoldable pub joined : List (Option String) → String
joined [] = ""
joined (none ∷ bs) = joined bs
joined (some t ∷ bs) = let rest = joined bs in if any_text bs then t & " " & rest else t
  where
    any_text : List (Option String) → Bool
    any_text [] = false
    any_text (none ∷ bs) = any_text bs
    any_text (some t ∷ bs) = true

unfoldable pub text_of : Content → String
unfolding joined
text_of (text t) = t
text_of (blocks bs) = joined bs

-- the loop of `_extract_assistant_text`, from the text found so far
unfoldable pub last_text : String → List Message → String
unfolding text_of
last_text found [] = found
last_text found (other ∷ ms) = last_text found ms
last_text found (assistant calls_tools content ∷ ms) =
    last_text (if calls_tools || text_of content == "" then found else text_of content) ms

-- `_extract_assistant_text`
unfoldable pub extract_assistant_text : List Message → String
extract_assistant_text messages = last_text "" messages

-- `_is_retryable`
unfoldable pub is_retryable : Exn → Policy → Bool
is_retryable exn policy =
    if exn.is_condition
    then true
    else (elim (policy.is_transient exn) [ none ↦ true | some answer ↦ answer ])

-- `f"{type(exc).__name__}: {exc}"`
unfoldable pub error_of : Exn → String
error_of exn = exn.class_name & ": " & exn.message
