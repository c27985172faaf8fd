-- ===== src/Proactive/Dispatch/Checks.antt =====
-- The checks of proactive.py before a message is queued and before a provider is called.
use agents_system.Prelude.{
  ℕ, true, Option, none, some, String, string_eq, List, [], ◌∷◌, ok, ◌≡◌, ◌≢◌, ◌↔◌, arith, contains,
  any-witness, any_of_contains, contains-keep_if, Some, inl, inr, Option-cases, Result-cases,
}
use agents_system.Dict
use agents_system.Dict.{Dict}
use agents_system.Permissions.Base.{Class, class_eq, covers}
use agents_system.Permissions.Registry.{Registry, resolve}
use agents_system.Harness.Interceptor.{classes_of, intersect}
use agents_system.Harness.Interceptor.Gate.{classes_of-Some, contains-classes_of}
use agents_system.Proactive.Quiet.{quiet_until}
use agents_system.Proactive.Queue.{Message, Queue, enqueue}
use agents_system.Proactive.Dispatch.{
  Policy, Recipient, ceiling_for, permitted, submit, Lookup, unconfigured, raises, held,
  still_permitted, guard, go, decide, non_empty, verdict_to,
}
use agents_system.Proactive.Dispatch.Room.{HasRoom, over_limit-HasRoom}

-- `send:proactive` is registered, and covered by a class within the runtime's ceiling that one of the held
-- permissions names.
abbrev pub IsGranted : Registry → Dict String (List Class) → String → List String → Type 0
IsGranted r ceiling runtime_id names =
    (required granted : Class) × (classes : List Class) × (resolve "send:proactive" r ≡ ok required)
    × (Dict.get runtime_id ceiling ≡ some classes)
    × (contains granted classes ≡ true)
    × Some (λ n. resolve n r ≡ ok granted) names
    × (covers granted required ≡ true)

no_entry :
    (r : Registry) (ceiling : Dict String (List Class)) (runtime_id : String) (names : List String)
    → Dict.get runtime_id ceiling ≡ none
    → ¬ IsGranted r ceiling runtime_id names
no_entry r ceiling runtime_id names absent (_, _, _, _, present, _, _, _) = cc

module _ (r : Registry) (ceiling : Dict String (List Class)) (runtime_id : String)
    (names : List String) where
  permitted-IsGranted :
      permitted r ceiling runtime_id names ≡ ok true → IsGranted r ceiling runtime_id names
  unfolding permitted ceiling_for intersect
  permitted-IsGranted h = elim (Result-cases (resolve "send:proactive" r)) [
    | inr (e, failed) ↦ absurd (ground arith)
    | inl (required, found) ↦ elim (Option-cases (Dict.get runtime_id ceiling)) [
      | inl absent ↦ absurd (ground arith)
      | inr (classes, present) ↦
          let (granted, covering, there) =
            any-witness (λ g. covers g required) (intersect classes (classes_of r names))
              (ground arith) in
          let both = contains-keep_if (λ c. contains c (classes_of r names)) granted classes in
          (
            required,
            granted,
            classes,
            found,
            present,
            ground arith,
            classes_of-Some r names granted (ground arith),
            covering,
          )
    ]
  ]

  permitted_of :
      IsGranted r ceiling runtime_id names → permitted r ceiling runtime_id names ≡ ok true
  unfolding permitted ceiling_for intersect
  permitted_of (required, granted, classes, found, present, there, named, covering) =
      let both = contains-keep_if (λ c. contains c (classes_of r names)) granted classes in
      let held_c = contains-classes_of r names granted named in
      ground (
        arith,
        any_of_contains (λ g. covers g required) granted (intersect classes (classes_of r names))
            covering (ground arith),
      )

  -- The permission check passes exactly when `send:proactive` is covered by a class of the runtime's
  -- ceiling that the caller also holds; a runtime with no ceiling never passes.
  pub permitted_iff :
      ((permitted r ceiling runtime_id names ≡ ok true) ↔ IsGranted r ceiling runtime_id names)
      × (Dict.get runtime_id ceiling ≡ none → permitted r ceiling runtime_id names ≢ ok true)
  unfolding permitted ceiling_for intersect
  permitted_iff = (
    (permitted-IsGranted, permitted_of),
    λ absent h. no_entry r ceiling runtime_id names absent (permitted-IsGranted h),
  )

-- A message is queued only if the caller is granted `send:proactive` within the runtime's ceiling and the
-- directory authorizes the subject; then it is the one message added to the queue.
pub submit_sound :
    (r : Registry) (ceiling : Dict String (List Class)) (directory : Option Recipient) (id : ℕ)
    (runtime_id subject_key text actor : String) (names : List String) (at : ℕ) (q q' : Queue)
    → submit r ceiling directory id runtime_id subject_key text actor names at q ≡ ok q'
    → IsGranted r ceiling runtime_id names
      × ((recipient : Recipient) × (directory ≡ some recipient))
      × (q' ≡ enqueue id runtime_id subject_key text actor at q)
unfolding submit
submit_sound r ceiling directory id runtime_id subject_key text actor names at q q' h =
    elim (Option-cases directory) [
      | inl refused ↦ absurd (ground arith)
      | inr (recipient, found) ↦ (
        permitted-IsGranted r ceiling runtime_id names (ground arith),
        (recipient, found),
        ground arith,
      )
    ]

-- The permission that still holds: of what the lookup answers, or of `send:proactive` itself where no
-- lookup is configured; a lookup that raises leaves none.
abbrev pub IsStillGranted : Registry → Dict String (List Class) → Lookup → String → Type 0
IsStillGranted r ceiling unconfigured runtime_id =
    IsGranted r ceiling runtime_id ("send:proactive" ∷ [])
IsStillGranted r ceiling raises runtime_id = ⊥
IsStillGranted r ceiling (held names) runtime_id = IsGranted r ceiling runtime_id names

still_permitted-IsStillGranted :
    (r : Registry) (ceiling : Dict String (List Class)) (lookup : Lookup) (runtime_id : String)
    → still_permitted r ceiling lookup runtime_id ≡ ok true
    → IsStillGranted r ceiling lookup runtime_id
unfolding still_permitted
still_permitted-IsStillGranted r ceiling unconfigured runtime_id h =
    permitted-IsGranted r ceiling runtime_id ("send:proactive" ∷ []) h
still_permitted-IsStillGranted r ceiling raises runtime_id h = absurd (ground arith)
still_permitted-IsStillGranted r ceiling (held names) runtime_id h =
    permitted-IsGranted r ceiling runtime_id names h

-- A text that is there and is not empty.
abbrev pub IsFilled : Option String → String → Type 0
IsFilled field s = (field ≡ some s) × (s ≢ "")

non_empty-IsFilled :
    (field : Option String) (s : String) → non_empty field ≡ some s → IsFilled field s
unfolding non_empty
non_empty-IsFilled none s h = absurd (ground arith)
non_empty-IsFilled (some t) s h = (ground arith, λ e. absurd (ground arith))

-- What `verdict_to` asks before it lets a message go.
verdict_to-go :
    (p : Policy) (channels : List String) (m : Message) (now : ℕ) (q : Queue)
    (channel_field address_field : Option String) (channel address : String)
    → verdict_to p channels m now q channel_field address_field ≡ go channel address
    → (channel_field ≡ some channel)
      × (address_field ≡ some address)
      × (contains channel channels ≡ true)
      × (quiet_until p.quiet_hours p.tz now ≡ none)
      × HasRoom m now q (some m.subject_key) p.per_recipient
      × HasRoom m now q none p.per_runtime
unfolding verdict_to guard
verdict_to-go p channels m now q none address_field channel address h = absurd (ground arith)
verdict_to-go p channels m now q (some c) none channel address h = absurd (ground arith)
verdict_to-go p channels m now q (some c) (some a) channel address h = (
  ground arith,
  ground arith,
  ground arith,
  ground arith,
  over_limit-HasRoom m now q (some m.subject_key) p.per_recipient (ground arith),
  over_limit-HasRoom m now q none p.per_runtime (ground arith),
)

-- A provider is called for a message only if `send:proactive` is still granted: the deployment's lookup
-- did not raise, and a class of the runtime's ceiling that one of the permissions it answers names,
-- or that `send:proactive` names where no lookup is configured, covers the permission; the
-- directory authorizes the subject and gives the channel and the address that are used, neither of
-- them empty; the channel is one of the dispatcher's; it is not quiet hours; and for each rate
-- limit fewer than its number of the runtime's other messages, of those to the subject for the
-- recipient's limit, are in sending, sent or ambiguous and were claimed within its window or at no
-- recorded instant.
pub decide_go :
    (r : Registry) (ceiling : Dict String (List Class)) (p : Policy) (channels : List String)
    (lookup : Lookup) (directory : Option Recipient) (m : Message) (now : ℕ) (q : Queue)
    (channel address : String)
    → decide r ceiling p channels lookup directory m now q ≡ ok (go channel address)
    → IsStillGranted r ceiling lookup m.runtime_id
      × ((recipient : Recipient) × (directory ≡ some recipient)
          × IsFilled recipient.channel channel
          × IsFilled recipient.address address)
      × (contains channel channels ≡ true)
      × (quiet_until p.quiet_hours p.tz now ≡ none)
      × HasRoom m now q (some m.subject_key) p.per_recipient
      × HasRoom m now q none p.per_runtime
unfolding decide
decide_go r ceiling p channels lookup directory m now q channel address h =
    elim (Option-cases directory) [
      | inl refused ↦ absurd (ground arith)
      | inr (recipient, found) ↦
          let (by_channel, by_address, known, awake, to_subject, to_any) =
            verdict_to-go p channels m now q (non_empty recipient.channel)
              (non_empty recipient.address) channel address (ground arith) in
          (
            still_permitted-IsStillGranted r ceiling lookup m.runtime_id (ground arith),
            (
              recipient,
              found,
              non_empty-IsFilled recipient.channel channel by_channel,
              non_empty-IsFilled recipient.address address by_address,
            ),
            known,
            awake,
            to_subject,
            to_any,
          )
    ]
