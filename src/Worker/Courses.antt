-- ===== src/Worker/Courses.antt =====
-- The courses that the processing of a claimed row takes in services/webhook_worker.py.
pub mod Taken
use agents_system.Prelude.{
  ℕ, ◌==◌, true, Option, none, some, String, string_eq, nat_eq, [], ◌∷◌, ◌&◌, Result, if◌then◌else◌,
  ok, err, ◌≡◌, refl, subst, inl, inr, arith, Bool-cases, Option-cases, Result-cases,
}
use agents_system.Outbox.{Work, Inbound, Outbox, legacy_channel, channel_scoped_key}
use agents_system.Worker.{
  Exn, Turn, Participant, Normalized, normalized, invalid, raised, Directory, TurnRequest, Binding,
  Worker, Answers, ran_turn, Done, channel_native_key, persisted_reply, extract_assistant_text,
}
use agents_system.Worker.Failures.{condition, record_failure, complete_or_retry}
use agents_system.Worker.Process.{
  Case, and_then, fallback_to, deliver, commit_reply, record_turn, request_of, answer, reply,
  identify, serve, find_binding, channel_of, load_inbound, bind, process_claimed_work,
}

-- The binding, where there is one, is that of the channel.
abbrev pub IsServed : Worker → String → Option Binding → Type 0
IsServed d channel none = Unit {0}
IsServed d channel (some b) = find_binding channel d.channels ≡ some b

-- The row's message, and the channel that it came on.
abbrev pub IsKnown : Outbox → Case → Type 0
IsKnown box c =
    (load_inbound c.work.inbound_message_id box.inbox ≡ some c.inbound)
    × (c.channel ≡ (if c.inbound.channel == "" then legacy_channel else c.inbound.channel))

-- A turn that may run, for a row without a reply that can be sent again: it is asked the text that the
-- adapter of the message's channel read from the row's message, on that channel, by the runtime of that
-- channel, for the active participant whom the directory names for the sender's address on it.
pub record IsAuthorized (d : Worker) (work : Work) (box : Outbox) (b : Binding) (req : TurnRequest)
    : Type 0 where
  pub inbound : Inbound
  pub turn : Turn
  pub directory : Directory
  pub participant : Participant
  pub loaded : load_inbound work.inbound_message_id box.inbox ≡ some inbound
  pub on_channel : req.channel ≡ (if inbound.channel == "" then legacy_channel else inbound.channel)
  pub bound : find_binding req.channel d.channels ≡ some b
  pub read :
      b.extract_turn inbound.payload (channel_native_key req.channel inbound.meta_message_id)
      ≡ ok (some turn)
  pub same_text : req.text ≡ turn.text
  pub has_directory : d.directory ≡ some directory
  pub same_address : directory.normalize turn.sender req.channel ≡ normalized req.address
  pub resolved : directory.resolve req.address req.channel ≡ ok (some participant)
  pub is_active : participant.active ≡ true
  pub same_subject : req.participant_id ≡ participant.id
  pub unanswered : persisted_reply d work ≡ none

-- What the processing of the row may come to.
pub data Course (d : Worker) (a : Answers) (work : Work) (box : Outbox) : Done → Type 0 where
  fails :
      (exn : Exn) (channel : String) (b : Option Binding)
      → IsServed d channel b
      → Course d a work box (record_failure d a work exn channel b none box)
  closes : (reason : String) → Course d a work box (complete_or_retry d a work reason box)
  resends :
      (c : Case) (to text key : String)
      → c.work ≡ work
      → find_binding c.channel d.channels ≡ some c.binding
      → persisted_reply d work ≡ some ((to, text), key)
      → Course d a work box (deliver d a c (to, text) box)
  turn_fails :
      (c : Case) (req : TurnRequest) (exn : Exn)
      → c.work ≡ work
      → find_binding c.channel d.channels ≡ some c.binding
      → IsAuthorized d work box c.binding req
      → Course d a work box (
          and_then (ran_turn req ∷ []) (
            record_failure d a c.work exn c.channel
              (some c.binding)
              (fallback_to c req.address)
              box))
  is_silent :
      (c : Case) (req : TurnRequest) (thread asked text : String) (reason : String)
      → c.work ≡ work
      → IsAuthorized d work box c.binding req
      → Course d a work box (
          and_then
            (ran_turn req ∷ record_turn d c thread asked text)
            (complete_or_retry d a c.work reason box))
  answers :
      (c : Case) (req : TurnRequest) (thread asked text : String)
      → c.work ≡ work
      → find_binding c.channel d.channels ≡ some c.binding
      → IsAuthorized d work box c.binding req
      → Course d a work box (
          and_then
            (ran_turn req ∷ record_turn d c thread asked text)
            (commit_reply d a c req.address text box))
