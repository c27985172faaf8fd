-- ===== src/Worker/Courses/Taken.antt =====
-- The stages of `process_claimed_work` of services/webhook_worker.py, each as one of the courses.
use agents_system.Prelude.{
  ℕ, ◌==◌, Option, none, some, String, string_eq, nat_eq, ◌&◌, Result, ok, err, ◌≡◌, refl, subst,
  inl, inr, arith, Bool-cases, Option-cases, Result-cases,
}
use agents_system.Outbox.{Work, Inbound, Outbox, channel_scoped_key}
use agents_system.Worker.{
  Exn, Turn, Participant, Normalized, normalized, invalid, raised, Directory, Worker, Answers, Done,
  channel_native_key, persisted_reply, extract_assistant_text,
}
use agents_system.Worker.Failures.{condition}
use agents_system.Worker.Process.{
  Case, request_of, answer, reply, identify, serve, find_binding, channel_of, load_inbound, bind,
  process_claimed_work,
}
use agents_system.Worker.Courses.{
  IsKnown, IsAuthorized, Course, fails, closes, resends, turn_fails, is_silent, answers,
}

answer-Course :
    (d : Worker) (a : Answers) (c : Case) (turn : Turn) (at : String) (id : ℕ) (box : Outbox)
    → find_binding c.channel d.channels ≡ some c.binding
    → IsAuthorized d c.work box c.binding (request_of c turn at id)
    → Course d a c.work box (answer d a c turn at id box)
unfolding answer request_of
answer-Course d a c turn at id box served auth =
    let req = request_of c turn at id in
    elim (Result-cases (c.binding.run_turn req)) [
      | inr (exn, e) ↦
          subst (Course d a c.work box) (ground arith) (turn_fails c req exn refl served auth)
      | inl (messages, e) ↦
          let text = extract_assistant_text messages in
          let thread = channel_scoped_key c.channel at in
          elim (Bool-cases (text == "")) [
            | inl empty ↦
                subst (Course d a c.work box) (ground arith)
                  (is_silent c req thread turn.text text "agent produced no reply" refl auth)
            | inr full ↦
                subst (Course d a c.work box) (ground arith)
                  (answers c req thread turn.text text refl served auth)
          ]
    ]

reply-Course :
    (d : Worker) (a : Answers) (c : Case) (turn : Turn) (at : String) (p : Participant)
    (dir : Directory) (box : Outbox)
    → find_binding c.channel d.channels ≡ some c.binding
    → IsKnown box c
    → c.binding.extract_turn c.inbound.payload
        (channel_native_key c.channel c.inbound.meta_message_id)
      ≡ ok (some turn)
    → dir.normalize turn.sender c.channel ≡ normalized at
    → d.directory ≡ some dir
    → dir.resolve at c.channel ≡ ok (some p)
    → Course d a c.work box (reply d a c turn at p box)
unfolding reply request_of
reply-Course d a c turn at p dir box served (loaded, on_channel) read at_address has resolves =
    elim (Bool-cases p.active) [
      | inr gone ↦ subst (Course d a c.work box) (ground arith) (closes "participant is not active")
      | inl active ↦ elim (Option-cases (persisted_reply d c.work)) [
        | inr (((to, text), key), e) ↦
            subst (Course d a c.work box) (ground arith) (resends c to text key refl served e)
        | inl e ↦ subst (Course d a c.work box) (ground arith) (
            answer-Course d a c turn at p.id box served (record {
              inbound = c.inbound;
              turn = turn;
              directory = dir;
              participant = p;
              loaded = loaded;
              on_channel = on_channel;
              read = read;
              same_text = refl;
              same_address = at_address;
              has_directory = has;
              resolved = resolves;
              is_active = active;
              same_subject = refl;
              bound = served;
              unanswered = e;
            }))
      ]
    ]

identify-Course :
    (d : Worker) (a : Answers) (c : Case) (turn : Turn) (dir : Directory) (box : Outbox)
    → find_binding c.channel d.channels ≡ some c.binding
    → IsKnown box c
    → c.binding.extract_turn c.inbound.payload
        (channel_native_key c.channel c.inbound.meta_message_id)
      ≡ ok (some turn)
    → d.directory ≡ some dir
    → Course d a c.work box (identify d a c turn dir box)
unfolding identify
identify-Course d a c turn dir box served known read has =
    from (dir.normalize turn.sender c.channel) refl
  where
    course : Done → Type 0
    course = Course d a c.work box

    from :
        (n : Normalized)
        → dir.normalize turn.sender c.channel ≡ n
        → course (identify d a c turn dir box)
    from invalid e = subst course (ground arith) (closes "inbound address is not serviceable")
    from (raised exn) e = subst course (ground arith) (fails exn c.channel (some c.binding) served)
    from (normalized at) e = resolve_from (dir.resolve at c.channel) refl
      where
        resolve_from :
            (r : Result Exn (Option Participant))
            → dir.resolve at c.channel ≡ r
            → course (identify d a c turn dir box)
        resolve_from (err exn) f =
            subst course (ground arith) (fails exn c.channel (some c.binding) served)
        resolve_from (ok none) f = subst course (ground arith) (closes "participant is not active")
        resolve_from (ok (some p)) f =
            subst course (ground arith)
              (reply-Course d a c turn at p dir box served known read e has f)

serve-Course :
    (d : Worker) (a : Answers) (c : Case) (box : Outbox)
    → find_binding c.channel d.channels ≡ some c.binding
    → IsKnown box c
    → Course d a c.work box (serve d a c box)
unfolding serve
serve-Course d a c box served known =
    from
      (c.binding.extract_turn c.inbound.payload
        (channel_native_key c.channel c.inbound.meta_message_id))
      refl
  where
    course : Done → Type 0
    course = Course d a c.work box

    from :
        (r : Result Exn (Option Turn))
        → c.binding.extract_turn c.inbound.payload
            (channel_native_key c.channel c.inbound.meta_message_id)
          ≡ r
        → course (serve d a c box)
    from (err exn) e = subst course (ground arith) (fails exn c.channel (some c.binding) served)
    from (ok none) e =
        subst course (ground arith) (closes "inbound message has no serviceable text")
    from (ok (some turn)) e = elim (Option-cases d.directory) [
      | inl none' ↦ subst course (ground arith) (
          fails (condition "participant directory is unavailable") c.channel (some c.binding)
            served)
      | inr (dir, has) ↦
          subst course (ground arith) (identify-Course d a c turn dir box served known e has)
    ]

bind-Course :
    (d : Worker) (a : Answers) (work : Work) (inbound : Inbound) (box : Outbox)
    → load_inbound work.inbound_message_id box.inbox ≡ some inbound
    → Course d a work box (bind d a work inbound box)
unfolding bind channel_of
bind-Course d a work inbound box loaded =
    let channel = channel_of inbound in
    elim (Option-cases (find_binding channel d.channels)) [
      | inl e ↦
          subst (Course d a work box) (ground arith)
            (fails (condition ("no binding for channel " & channel)) channel none tt)
      | inr (b, e) ↦ subst (Course d a work box) (ground arith) (
          serve-Course d a
            (record { work = work; inbound = inbound; channel = channel; binding = b }) box e
            (loaded, refl))
    ]

-- Whatever the message, the adapters and the directory answer, the processing takes such a course.
pub process-Course :
    (d : Worker) (a : Answers) (work : Work) (box : Outbox)
    → Course d a work box (process_claimed_work d a work box)
unfolding process_claimed_work
process-Course d a work box = elim (Option-cases a.load_error) [
  | inr (exn, e) ↦ subst (Course d a work box) (ground arith) (fails exn "unknown" none tt)
  | inl e ↦ elim (Option-cases (load_inbound work.inbound_message_id box.inbox)) [
    | inl f ↦
        subst (Course d a work box) (ground arith)
          (closes "inbound message has no serviceable text")
    | inr (inbound, f) ↦
        subst (Course d a work box) (ground arith) (bind-Course d a work inbound box f)
  ]
]
