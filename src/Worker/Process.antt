-- ===== src/Worker/Process.antt =====
-- `process_claimed_work` of services/webhook_worker.py, one stage after another.
use agents_system.Prelude.{
  ℕ, ◌==◌, ◌&&◌, true, false, Option, none, some, String, string_eq, nat_eq, List, [], ◌∷◌, ◌++◌,
  ◌&◌, if◌then◌else◌, ok, err,
}
use agents_system.Outbox.{
  Work, Inbound, Outbox, value_error, lease_lost, legacy_channel, channel_scoped_key,
}
use agents_system.Outbox.Settle.{persist_outbound_intent}
use agents_system.Worker.{
  Exn, Turn, Participant, normalized, invalid, raised, Directory, TurnRequest, Binding, Worker,
  Answers, Act, ran_turn, recorded, sent, Done, channel_native_key, persisted_reply,
  extract_assistant_text,
}
use agents_system.Worker.Failures.{condition, record_failure, complete_or_retry}

-- what a claimed row is processed with, once its message is known
pub record Case : Type 0 where
  pub work : Work
  pub inbound : Inbound
  pub channel : String
  pub binding : Binding

abbrev pub and_then : List Act → Done → Done
and_then acts (more, box) = (acts ++ more, box)

unfoldable pub fallback_to : Case → String → Option (String × String)
fallback_to c address = some (address, c.inbound.meta_message_id & ":fallback")

-- the send, and the end of the row
unfoldable pub deliver : Worker → Answers → Case → String × String → Outbox → Done
deliver d a c (to, body) box = elim (c.binding.send_text to body) [
  | some exn ↦
      and_then (sent to body false ∷ [])
        (record_failure d a c.work exn c.channel (some c.binding) none box)
  | none ↦
      and_then (sent to body true ∷ []) (complete_or_retry d a c.work "provider send succeeded" box)
]

-- the commit of the reply, and the send
unfoldable pub commit_reply : Worker → Answers → Case → String → String → Outbox → Done
unfolding deliver fallback_to
commit_reply d a c address text box =
    let fails : Exn → Done =
      λ exn. record_failure d a c.work exn c.channel (some c.binding) (fallback_to c address) box in
    elim a.intent_error [
      | some exn ↦ fails exn
      | none ↦
          elim (persist_outbound_intent a.intent_at c.work.id d.worker_id (d.encode address text)
            (c.inbound.meta_message_id & ":reply") box) [
              | err lease_lost ↦ ([], box)
              | err (value_error m) ↦
                  fails (record { class_name = "ValueError"; message = m; is_condition = false })
              | ok after ↦ deliver d a c (address, text) after
            ]
    ]

-- `_record_turn`: a recorder that raises changes nothing
unfoldable pub record_turn : Worker → Case → String → String → String → List Act
record_turn d c thread user_text assistant_text =
    if c.binding.persist_conversation && d.has_recorder
    then recorded thread user_text assistant_text ∷ []
    else []

-- what the turn is asked with
unfoldable pub request_of : Case → Turn → String → ℕ → TurnRequest
request_of c turn address participant_id = record {
  text = turn.text;
  session_id = c.inbound.meta_message_id;
  thread_id =
      if c.binding.checkpointer_enabled && c.binding.persist_conversation
      then some (channel_scoped_key c.channel address)
      else none;
  participant_id = participant_id;
  channel = c.channel;
  address = address;
}

-- the turn, and what its answer leads to
unfoldable pub answer : Worker → Answers → Case → Turn → String → ℕ → Outbox → Done
unfolding commit_reply record_turn request_of fallback_to
answer d a c turn address participant_id box =
    let req = request_of c turn address participant_id in
    elim (c.binding.run_turn req) [
      | err exn ↦
          and_then (ran_turn req ∷ [])
            (record_failure d a c.work exn c.channel (some c.binding) (fallback_to c address) box)
      | ok messages ↦
          let text = extract_assistant_text messages in
          let done =
            ran_turn req ∷ record_turn d c (channel_scoped_key c.channel address) turn.text text in
          and_then done (
            if text == ""
            then complete_or_retry d a c.work "agent produced no reply" box
            else commit_reply d a c address text box)
    ]

-- a reply that is already committed is sent again, without a turn
unfoldable pub reply : Worker → Answers → Case → Turn → String → Participant → Outbox → Done
unfolding answer deliver
reply d a c turn address p box =
    if p.active
    then (elim (persisted_reply d c.work) [
      | some (body, key) ↦ deliver d a c body box
      | none ↦ answer d a c turn address p.id box
    ])
    else complete_or_retry d a c.work "participant is not active" box

-- the sender's address, and who that is on its channel
unfoldable pub identify : Worker → Answers → Case → Turn → Directory → Outbox → Done
unfolding reply
identify d a c turn directory box = elim (directory.normalize turn.sender c.channel) [
  | invalid ↦ complete_or_retry d a c.work "inbound address is not serviceable" box
  | raised exn ↦ record_failure d a c.work exn c.channel (some c.binding) none box
  | normalized at ↦ elim (directory.resolve at c.channel) [
    | err exn ↦ record_failure d a c.work exn c.channel (some c.binding) none box
    | ok none ↦ complete_or_retry d a c.work "participant is not active" box
    | ok (some p) ↦ reply d a c turn at p box
  ]
]

-- the turn that the adapter reads from the payload
unfoldable pub serve : Worker → Answers → Case → Outbox → Done
unfolding identify
serve d a c box =
    elim (c.binding.extract_turn c.inbound.payload
      (channel_native_key c.channel c.inbound.meta_message_id)) [
        | err exn ↦ record_failure d a c.work exn c.channel (some c.binding) none box
        | ok none ↦ complete_or_retry d a c.work "inbound message has no serviceable text" box
        | ok (some turn) ↦ elim d.directory [
          | none ↦
              record_failure d a c.work (condition "participant directory is unavailable") c.channel
                (some c.binding) none box
          | some directory ↦ identify d a c turn directory box
        ]
      ]

-- `self._channels.get(channel)`
unfoldable pub find_binding : String → List (String × Binding) → Option Binding
find_binding channel [] = none
find_binding channel ((name, b) ∷ bs) = if name == channel then some b else find_binding channel bs

-- `session.get(InboundMessage, work.inbound_message_id)`
unfoldable pub load_inbound : ℕ → List Inbound → Option Inbound
load_inbound id [] = none
load_inbound id (m ∷ ms) = if m.id == id then some m else load_inbound id ms

-- `inbound.channel or LEGACY_CHANNEL`
unfoldable pub channel_of : Inbound → String
channel_of inbound = if inbound.channel == "" then legacy_channel else inbound.channel

-- the binding of the message's channel
unfoldable pub bind : Worker → Answers → Work → Inbound → Outbox → Done
unfolding serve find_binding channel_of
bind d a work inbound box =
    let channel = channel_of inbound in
    elim (find_binding channel d.channels) [
      | none ↦
          record_failure d a work (condition ("no binding for channel " & channel)) channel none
            none box
      | some b ↦
          serve d a (record { work = work; inbound = inbound; channel = channel; binding = b }) box
    ]

-- `process_claimed_work`
unfoldable pub process_claimed_work : Worker → Answers → Work → Outbox → Done
unfolding bind load_inbound
process_claimed_work d a work box = elim a.load_error [
  | some exn ↦ record_failure d a work exn "unknown" none none box
  | none ↦ elim (load_inbound work.inbound_message_id box.inbox) [
    | none ↦ complete_or_retry d a work "inbound message has no serviceable text" box
    | some inbound ↦ bind d a work inbound box
  ]
]
