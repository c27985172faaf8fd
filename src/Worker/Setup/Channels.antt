-- ===== src/Worker/Setup/Channels.antt =====
-- The channels that a worker of services/webhook_worker.py is set up with.
use agents_system.Prelude.{
  ◌==◌, ◌++◌, ap, sym, ◌∙◌, if◌then◌else◌, Result, false, not, string_eq, Option, none, some,
  String, List, [], ◌∷◌, any, ok, ◌≡◌, ◌≢◌, refl, ◌⊎◌, inl, inr, arith, Bool-cases, Option-cases,
  Result-cases, bind-ok, All, subst,
}
use agents_system.Outbox.{legacy_channel}
use agents_system.Worker.{Exn, Participant, Normalized, Directory, Binding}
use agents_system.Worker.Process.{find_binding}
use agents_system.Worker.Setup.{
  Known, aware, blind, Given, Runtime, whatsapp_only, or_default, channel_directory, bindings_of,
  Setup, set_up, init,
}

-- Every channel of the list is the one that a channel-blind directory was written for.
abbrev pub AreWhatsapp : List (String × Binding) → Type 0
AreWhatsapp = All (λ c. c.0 ≡ legacy_channel)

any-AreWhatsapp :
    (cs : List (String × Binding))
    → any (λ c. not (c.0 == legacy_channel)) cs ≡ false
    → AreWhatsapp cs
any-AreWhatsapp [] h = tt
any-AreWhatsapp (c ∷ cs) h = (ground arith, any-AreWhatsapp cs (ground arith))

find_binding-append :
    (name k : String) (b : Binding) (cs : List (String × Binding))
    → find_binding name (cs ++ ((k, b) ∷ [])) ≡ (elim (find_binding name cs) [
      | some found ↦ some found
      | none ↦ if k == name then some b else none
    ])
unfolding find_binding
find_binding-append name k b [] = refl
find_binding-append name k b ((j, c) ∷ cs) = ground (arith, find_binding-append name k b cs)

-- The built-in binding of a runtime and a client: it reads with the built-in adapter, runs the runtime's
-- turns, sends with the client, and keeps the policy that was given, or the default one.
pub record IsBuiltIn (g : Given) (runtime : Runtime) (send : String → String → Option Exn)
    (b : Binding) : Type 0 where
  pub reads : b.extract_turn ≡ g.read_whatsapp
  pub runs : b.run_turn ≡ runtime.run_turn
  pub sends : b.send_text ≡ send
  pub keeps : b.persist_conversation ≡ runtime.persist_conversation
  pub checks : b.checkpointer_enabled ≡ g.checkpointer_enabled
  pub retries : b.policy ≡ or_default g.default_policy g.retry_policy

-- The channels are those that were given, with the built-in one beside them where a runtime and a
-- client were given for it.
abbrev pub HasChannels : Given → List (String × Binding) → Type 0
HasChannels g cs =
    ((g.runtime ≡ none) × (g.whatsapp_client ≡ none) × (cs ≡ g.channels))
    ⊎ ((runtime : Runtime) × (send : String → String → Option Exn) × (b : Binding) × (g.runtime
          ≡ some runtime)
        × (g.whatsapp_client ≡ some send)
        × (find_binding legacy_channel g.channels ≡ none)
        × (find_binding legacy_channel cs ≡ some b)
        × IsBuiltIn g runtime send b
        × ((name : String)
            → name ≢ legacy_channel
            → find_binding name cs ≡ find_binding name g.channels))

bindings_of-HasChannels :
    (g : Given) (cs : List (String × Binding)) → bindings_of g ≡ ok cs → HasChannels g cs
unfolding bindings_of
bindings_of-HasChannels g cs h = elim (Option-cases g.runtime) [
  | inl e ↦ elim (Option-cases g.whatsapp_client) [
    | inl f ↦ inl (e, f, ground arith)
    | inr (send, f) ↦ absurd (ground arith)
  ]
  | inr (runtime, e) ↦ elim (Option-cases g.whatsapp_client) [
    | inl f ↦ absurd (ground arith)
    | inr (send, f) ↦ elim (Option-cases (find_binding legacy_channel g.channels)) [
      | inr (held, twice) ↦ absurd (ground arith)
      | inl absent ↦
          let same : g.channels ++ ((legacy_channel, built runtime send) ∷ []) ≡ cs =
            ground arith in
          inr (
            runtime,
            send,
            built runtime send,
            e,
            f,
            absent,
            subst (λ xs. find_binding legacy_channel xs ≡ some (built runtime send)) same
                (added runtime send absent),
            record {
              reads = refl;
              runs = refl;
              sends = refl;
              keeps = refl;
              checks = refl;
              retries = refl;
            },
            (λ name other.
                subst (λ xs. find_binding name xs ≡ find_binding name g.channels) same
                  (others runtime send name other)),
          )
    ]
  ]
]
  where
    built : Runtime → (String → String → Option Exn) → Binding
    built runtime send = record {
      extract_turn = g.read_whatsapp;
      run_turn = runtime.run_turn;
      send_text = send;
      persist_conversation = runtime.persist_conversation;
      checkpointer_enabled = g.checkpointer_enabled;
      policy = or_default g.default_policy g.retry_policy;
    }

    added :
        (runtime : Runtime) (send : String → String → Option Exn)
        → find_binding legacy_channel g.channels ≡ none
        → find_binding legacy_channel (g.channels ++ ((legacy_channel, built runtime send) ∷ []))
          ≡ some (built runtime send)
    added runtime send absent =
        ground
          (arith, find_binding-append legacy_channel legacy_channel (built runtime send) g.channels)

    others :
        (runtime : Runtime) (send : String → String → Option Exn) (name : String)
        → name ≢ legacy_channel
        → find_binding name (g.channels ++ ((legacy_channel, built runtime send) ∷ []))
          ≡ find_binding name g.channels
    others runtime send name other =
        let appended = find_binding-append name legacy_channel (built runtime send) g.channels in
        elim (Bool-cases (legacy_channel == name)) [
          | inl e ↦ absurd (other (ground arith))
          | inr e ↦ elim (Option-cases (find_binding name g.channels)) [
            | inl f ↦ ground (arith, appended)
            | inr (b, f) ↦ ground (arith, appended)
          ]
        ]

-- The directory that is asked: none, the one that was given, or one for WhatsApp's channel alone that
-- asks the given one without telling it the channel.
abbrev pub IsTold : Option Known → List (String × Binding) → Option Directory → Type 0
IsTold known cs asked =
    ((known ≡ none) × (asked ≡ none))
    ⊎ ((d : Directory) × (known ≡ some (aware d)) × (asked ≡ some d))
    ⊎ ((normalize : String → Normalized) × (resolve : String → Result Exn (Option Participant))
        × (d : Directory) × (known ≡ some (blind normalize resolve))
        × (asked ≡ some d)
        × ((raw channel : String) → d.normalize raw channel ≡ normalize raw)
        × ((address channel : String) → d.resolve address channel ≡ resolve address)
        × AreWhatsapp cs)

channel_directory-IsTold :
    (known : Option Known) (cs : List (String × Binding)) (asked : Option Directory)
    → channel_directory known cs ≡ ok asked
    → IsTold known cs asked
unfolding channel_directory whatsapp_only
channel_directory-IsTold none cs asked h = inl (refl, ground arith)
channel_directory-IsTold (some (aware d)) cs asked h = inr (inl (d, refl, ground arith))
channel_directory-IsTold (some (blind normalize resolve)) cs asked h =
    elim (Bool-cases (any (λ c. not (c.0 == legacy_channel)) cs)) [
      | inl others ↦ absurd (ground arith)
      | inr none_other ↦ inr (
          inr (
            normalize,
            resolve,
            whatsapp_only normalize resolve,
            refl,
            ground arith,
            (λ raw channel. refl),
            (λ address channel. refl),
            any-AreWhatsapp cs none_other,
          ))
    ]

set_up-IsTold :
    (known : Option Known) (cs : List (String × Binding)) (s : Setup)
    → set_up known cs ≡ ok s
    → (cs ≢ []) × (s.channels ≡ cs) × IsTold known s.channels s.directory
unfolding set_up
set_up-IsTold known [] s h = absurd (ground arith)
set_up-IsTold known (c ∷ cs) s h = elim (Result-cases (channel_directory known (c ∷ cs))) [
  | inr (e, f) ↦ absurd (ground arith)
  | inl (asked, f) ↦
      let built : record { channels = c ∷ cs; directory = asked } ≡ s = ground arith in
      let told = channel_directory-IsTold known (c ∷ cs) asked f in
      (
        (λ e. cc),
        ap (λ (x : Setup). x.channels) (sym built),
        subst (λ (x : Setup). IsTold known x.channels x.directory) built told,
      )
]

-- A worker that is set up has a name and at least one channel: the channels that were given and, where
-- a runtime and a client were given, the built-in one made of them, which no given channel stands in
-- the way of. It asks an aware directory as it is, and one that is never told the channel only where
-- WhatsApp's is the only channel.
pub init-IsBound :
    (g : Given) (s : Setup)
    → init g ≡ ok s
    → (g.worker_id ≢ "")
      × (s.channels ≢ [])
      × HasChannels g s.channels
      × IsTold g.directory s.channels s.directory
unfolding init
init-IsBound g s h = elim (Bool-cases (g.worker_id == "")) [
  | inl unnamed ↦ absurd (ground arith)
  | inr named ↦
      let (cs, bound, rest) = bind-ok (bindings_of g) (set_up g.directory) s (ground arith) in
      let (some_channel, same, told) = set_up-IsTold g.directory cs s rest in
      (
        ground arith,
        (λ e. some_channel (sym same ∙ e)),
        subst (HasChannels g) (sym same) (bindings_of-HasChannels g cs bound),
        told,
      )
]
