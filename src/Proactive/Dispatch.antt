-- ===== src/Proactive/Dispatch.antt =====
-- `ProactiveSender` and `ProactiveDispatcher` of proactive.py.
--
-- The directory, the deployment's permission lookup and the provider are code of others: their
-- answers are arguments. `dispatch` is in three parts, before, at and after the provider's call,
-- because other workers run in between.
pub mod Checks
pub mod Room
use agents_system.Prelude.{
  ℕ, ◌+◌, ◌-◌, ◌==◌, Bool, true, false, ◌&&◌, ◌||◌, not, Option, none, some, String, string_eq,
  nat_eq, List, [], ◌∷◌, ◌++◌, Result, ok, err, ◌>>=◌, if◌then◌else◌, ltb, leb, map, any, contains,
}
use agents_system.Dict
use agents_system.Dict.{Dict}
use agents_system.Permissions.Base.{Class, class_eq, covers, PermissionError}
use agents_system.Permissions.Registry.{Registry, resolve}
use agents_system.Harness.Interceptor.{classes_of, intersect}
use agents_system.Proactive.Quiet.{quiet_until}
use agents_system.Proactive.Queue
use agents_system.Proactive.Queue.{
  Status, sent, failed, ambiguous, Message, Queue, attempts_since, finish, defer, enqueue,
}

-- `(count, window_seconds)`, the window in microseconds
pub record Limit : Type 0 where
  pub count : ℕ
  pub window : ℕ

pub record Policy : Type 0 where
  pub per_recipient : Option Limit
  pub per_runtime : Option Limit
  pub quiet_hours : Option (ℕ × ℕ)
  pub tz : ℕ
  pub recheck : ℕ

-- a `TurnSubject` as the directory returns it
pub record Recipient : Type 0 where
  pub channel : Option String
  pub address : Option String

-- `_ceiling`
unfoldable pub ceiling_of : Registry → Dict String (List String) → Dict String (List Class)
ceiling_of r = map (λ p. (p.0, classes_of r p.1))

-- `ceiling.get(runtime_id, set())`
unfoldable pub ceiling_for : Dict String (List Class) → String → List Class
ceiling_for ceiling runtime_id = elim (Dict.get runtime_id ceiling) [
  | some classes ↦ classes
  | none ↦ []
]

-- `_permitted`; `required` is the class of `send:proactive`
unfoldable pub permitted :
    Registry → Dict String (List Class) → String → List String → Result PermissionError Bool
permitted r ceiling runtime_id held = do
  required ← resolve "send:proactive" r
  ok (any (λ g. covers g required) (intersect (ceiling_for ceiling runtime_id) (classes_of r held)))

pub data Refusal : Type 0 where
  not_granted not_authorized : Refusal
  unknown_permission : PermissionError → Refusal

unfoldable pub or_refuse : Result PermissionError Bool → Result Refusal Bool
or_refuse (ok b) = ok b
or_refuse (err e) = err (unknown_permission e)

-- `ProactiveSender.submit`; the directory's answer is read only after the permission check.
unfoldable pub submit :
    Registry
    → Dict String (List Class)
    → Option Recipient
    → ℕ
    → String
    → String
    → String
    → String
    → List String
    → ℕ
    → Queue
    → Result Refusal Queue
unfolding or_refuse
submit r ceiling directory id runtime_id subject_key text actor held available_at q = do
  allowed ← or_refuse (permitted r ceiling runtime_id held)
  if allowed
      then elim directory [
        | none ↦ err not_authorized
        | some _ ↦ ok (enqueue id runtime_id subject_key text actor available_at q)
      ]
      else err not_granted

-- What the deployment's permission lookup does: it is not configured, raises, or answers.
pub data Lookup : Type 0 where
  unconfigured raises : Lookup
  held : List String → Lookup

-- `_still_permitted`
unfoldable pub still_permitted :
    Registry → Dict String (List Class) → Lookup → String → Result PermissionError Bool
still_permitted r ceiling unconfigured runtime_id =
    permitted r ceiling runtime_id ("send:proactive" ∷ [])
still_permitted r ceiling raises runtime_id = ok false
still_permitted r ceiling (held names) runtime_id = permitted r ceiling runtime_id names

-- one round of the loop of `_guard`: whether the limit is used up
unfoldable pub over_limit : Message → ℕ → Queue → Option Limit → Option String → Bool
over_limit m now q none subject_key = false
over_limit m now q (some limit) subject_key =
    leb limit.count (attempts_since m.runtime_id subject_key (now - limit.window) m.id q)

pub data Hold : Type 0 where
  quiet_hours rate_limit : Hold

-- `_guard`: until when the message is held, and why
unfoldable pub guard : Policy → Message → ℕ → Queue → Option (ℕ × Hold)
guard p m now q = elim (quiet_until p.quiet_hours p.tz now) [
  | some until ↦ some (until, quiet_hours)
  | none ↦
      if over_limit m now q p.per_recipient (some m.subject_key)
        || over_limit m now q p.per_runtime none
      then some (now + p.recheck, rate_limit)
      else none
]

pub data Failing : Type 0 where
  permission_revoked recipient_not_authorized no_channel : Failing

-- what `_dispatch` does with a claimed message before a provider is called
pub data Verdict : Type 0 where
  refuse : Failing → Verdict
  hold : ℕ → Hold → Verdict
  go : String → String → Verdict

unfoldable pub go_if_clear : Option (ℕ × Hold) → String → String → Verdict
go_if_clear none channel address = go channel address
go_if_clear (some (until, reason)) channel address = hold until reason

-- `not recipient.channel` holds of a missing and of an empty text.
unfoldable pub non_empty : Option String → Option String
non_empty none = none
non_empty (some s) = if s == "" then none else some s

unfoldable pub verdict_to :
    Policy → List String → Message → ℕ → Queue → Option String → Option String → Verdict
unfolding go_if_clear
verdict_to p channels m now q (some channel) (some address) =
    if contains channel channels
    then go_if_clear (guard p m now q) channel address
    else refuse no_channel
verdict_to p channels m now q _ _ = refuse recipient_not_authorized

unfoldable pub decide :
    Registry
    → Dict String (List Class)
    → Policy
    → List String
    → Lookup
    → Option Recipient
    → Message
    → ℕ
    → Queue
    → Result PermissionError Verdict
unfolding non_empty verdict_to
decide r ceiling p channels lookup directory m now q = do
  allowed ← still_permitted r ceiling lookup m.runtime_id
  if allowed
      then elim directory [
        | none ↦ ok (refuse recipient_not_authorized)
        | some recipient ↦ ok (
            verdict_to p channels m now q (non_empty recipient.channel)
              (non_empty recipient.address))
      ]
      else ok (refuse permission_revoked)

-- What the channel's `send_proactive` does.
pub data Answer : Type 0 where
  accepted rejected unknown : Answer
  rate_limited : ℕ → Answer

-- the handlers of `_dispatch` after the call
unfoldable pub settle : Message → ℕ → Answer → Queue → Queue
settle m now accepted q = finish m.id sent none q
settle m now rejected q = finish m.id failed (some "rejected") q
settle m now unknown q = finish m.id ambiguous (some "send_error") q
settle m now (rate_limited retry_after) q = defer m.id (now + retry_after) q

unfoldable pub failing_text : Failing → String
failing_text permission_revoked = "permission_revoked"
failing_text recipient_not_authorized = "recipient_not_authorized"
failing_text no_channel = "no_channel"

-- the two ways that `_dispatch` ends without a call
unfoldable pub end_unsent : Message → Verdict → Queue → Queue
unfolding failing_text
end_unsent m (refuse reason) q = finish m.id failed (some (failing_text reason)) q
end_unsent m (hold until _) q = defer m.id until q
end_unsent m (go _ _) q = q
