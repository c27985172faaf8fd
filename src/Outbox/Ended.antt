-- ===== src/Outbox/Ended.antt =====
-- What a terminal failure of services/outbox.py leaves of its row.
use agents_system.Prelude.{
  ℕ, none, some, Option, String, map, ◌≡◌, refl, ap, sym, ◌∙◌, subst, ◌⊎◌, inl, inr, Option-cases,
  string_eq, nat_eq,
}
use agents_system.Outbox.{Work, Outbox}
use agents_system.Outbox.Claim.{terminal_row}
use agents_system.Outbox.Settle.{
  Failure, FailureOutcome, fail_terminally, fallback_of, reply_row, failure_row, intent_row,
  body_of,
}
use agents_system.Outbox.Changes.{at_id, fail_terminally-rows}

-- The reply of the row that a terminal failure leaves: the one that it held, or the fallback that was
-- given, if any.
abbrev pub HoldsReply : Failure → Work → Option String → Work → Type 0
HoldsReply failure w told left =
    ((body : String) × (w.outbound_body ≡ some body)
      × (told ≡ none)
      × (left.outbound_body ≡ some body)
      × (left.outbound_send_key ≡ w.outbound_send_key))
    ⊎ ((w.outbound_body ≡ none)
        × (failure.fallback ≡ none)
        × (told ≡ none)
        × (left.outbound_body ≡ none))
    ⊎ ((body key : String) × (w.outbound_body ≡ none)
        × (failure.fallback ≡ some (body, key))
        × (told ≡ some body)
        × (left.outbound_body ≡ some body)
        × (left.outbound_send_key ≡ some key))

-- The row as a terminal failure leaves it: failed at the instant of the failure, without its lease.
abbrev pub IsEnded : ℕ → Failure → Work → FailureOutcome → Work → Type 0
IsEnded now failure w o left =
    (left.id ≡ w.id)
    × (left.failed_at ≡ some now)
    × (left.lease_owner ≡ none)
    × (left.lease_expires_at ≡ none)
    × (left.last_error ≡ some failure.error)
    × HoldsReply failure w o.fallback_body left

-- The rows after a terminal failure of the row `w`: no row but `w` is changed.
abbrev pub EndsRow : ℕ → Failure → Outbox → Work → FailureOutcome → Type 0
EndsRow now failure box w o =
    (change : Work → Work) × (o.box.rows ≡ map (at_id w.id change) box.rows)
    × IsEnded now failure w o (change w)

-- The row that is left with this reply.
abbrev left_row : ℕ → Failure → Option (String × String) → Work → Work
left_row now failure reply w =
    terminal_row now failure.error (reply_row reply (failure_row failure.error w))

left_row-columns :
    (now : ℕ) (failure : Failure) (reply : Option (String × String)) (w : Work)
    → let left = left_row now failure reply w in
      (left.id ≡ w.id)
      × (left.failed_at ≡ some now)
      × (left.lease_owner ≡ none)
      × (left.lease_expires_at ≡ none)
      × (left.last_error ≡ some failure.error)
unfolding terminal_row reply_row failure_row intent_row
left_row-columns now failure none w = (refl, refl, refl, refl, refl)
left_row-columns now failure (some (body, key)) w = (refl, refl, refl, refl, refl)

left_row-HoldsReply :
    (now : ℕ) (failure : Failure) (w : Work)
    → let reply = fallback_of failure.fallback w.outbound_body in
      HoldsReply failure w (body_of reply) (left_row now failure reply w)
unfolding terminal_row reply_row failure_row intent_row fallback_of
left_row-HoldsReply now failure w = elim (Option-cases w.outbound_body) [
  | inr (body, full) ↦
      subst holding (sym (ap (fallback_of failure.fallback) full))
        (inl (body, full, refl, full, refl))
  | inl empty ↦ elim (Option-cases failure.fallback) [
    | inl absent ↦
        subst holding (sym (ap (fallback_of failure.fallback) empty ∙ absent))
          (inr (inl (empty, absent, refl, empty)))
    | inr ((body, key), given) ↦
        subst holding (sym (ap (fallback_of failure.fallback) empty ∙ given))
          (inr (inr (body, key, empty, given, refl, refl, refl)))
  ]
]
  where
    holding : Option (String × String) → Type 0
    holding reply = HoldsReply failure w (body_of reply) (left_row now failure reply w)

pub fail_terminally-EndsRow :
    (now : ℕ) (failure : Failure) (box : Outbox) (w : Work)
    → EndsRow now failure box w (fail_terminally now failure w box)
unfolding fail_terminally
fail_terminally-EndsRow now failure box w =
    let (a, b, c, d, e) =
      left_row-columns now failure (fallback_of failure.fallback w.outbound_body) w in
    (_, fail_terminally-rows now failure w box, (a, b, c, d, e, left_row-HoldsReply now failure w))
