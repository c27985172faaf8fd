-- ===== src/Outbox/Accept.antt =====
-- The acceptance of a message that a channel delivers again, in services/outbox.py.
use agents_system.Prelude.{
  ℕ, true, none, some, String, string_eq, List, [], ◌∷◌, ◌++◌, ◌≡◌, ◌≢◌, refl, arith, Option-cases,
  inl, inr, ok,
}
use agents_system.Outbox.{
  Inbound, Outbox, Acceptance, channel_scoped_key, find_inbound, insert_inbound,
  accept_inbound_message,
}

find_inbound-append :
    (meta : String) (m : Inbound) (ms : List Inbound)
    → m.meta_message_id ≡ meta
    → find_inbound meta ms ≡ none
    → find_inbound meta (ms ++ (m ∷ [])) ≡ some m
unfolding find_inbound
find_inbound-append meta m [] same h = ground arith
find_inbound-append meta m (x ∷ ms) same h = ground (arith, find_inbound-append meta m ms same)

-- A message that was accepted is known to the tables that its acceptance left.
accepted_known :
    (inbound_id work_id now : ℕ) (meta payload key channel : String) (box : Outbox) (a : Acceptance)
    → accept_inbound_message inbound_id work_id now meta payload key channel box ≡ ok a
    → (m : Inbound) × (find_inbound (channel_scoped_key channel meta) a.box.inbox ≡ some m)
      × (m.id ≡ a.inbound_message_id)
unfolding accept_inbound_message insert_inbound
accepted_known inbound_id work_id now meta payload key channel box a h =
    elim (Option-cases (find_inbound (channel_scoped_key channel meta) box.inbox)) [
      | inl fresh ↦
          let m : Inbound = record {
            id = inbound_id;
            channel = channel;
            meta_message_id = channel_scoped_key channel meta;
            payload = payload;
          } in
          let found =
            find_inbound-append (channel_scoped_key channel meta) m box.inbox refl fresh in
          (m, ground arith, ground arith)
      | inr (m, e) ↦ (m, ground arith, ground arith)
    ]

-- A message that a channel delivers again is accepted as the one it is: whatever ids are drawn for
-- it, and whatever its payload, the answer names the stored message and the tables stay as they are.
pub accept-again :
    (inbound_id work_id now : ℕ) (meta payload key channel : String) (box : Outbox) (a : Acceptance)
    (inbound_id' work_id' now' : ℕ) (payload' key' : String)
    → accept_inbound_message inbound_id work_id now meta payload key channel box ≡ ok a
    → key' ≢ ""
    → accept_inbound_message inbound_id' work_id' now' meta payload' key' channel a.box
      ≡ ok (record { inbound_message_id = a.inbound_message_id; duplicate = true; box = a.box })
unfolding accept_inbound_message insert_inbound
accept-again inbound_id work_id now meta payload key channel box a i w t p k h named =
    let (m, e, same) = accepted_known inbound_id work_id now meta payload key channel box a h in
    ground arith
