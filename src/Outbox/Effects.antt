-- ===== src/Outbox/Effects.antt =====
-- What the transactions of services/outbox.py do to the rows, and what they do it from.
use agents_system.Prelude.{
  ℕ, ◌+◌, Bool, false, true, String, List, [], ◌∷◌, ◌++◌, map, ◌≡◌, ◌≢◌, refl, ap, ◌∙◌, ◌⊎◌, inl,
  inr, arith, Option-cases, ok,
}
use agents_system.Outbox.{
  Work, Outbox, Acceptance, new_work, channel_scoped_key, find_inbound, insert_inbound,
  accept_inbound_message, pending_outbox_work,
}
use agents_system.Outbox.Claim.{has_two_leases}
use agents_system.Outbox.Settle.{is_live, record_fallback_delivery}
use agents_system.Outbox.Rows.{IsIn, claimed_row, claim_rows-rows}
use agents_system.Outbox.Steps.{Step, accepts, claims, persists, completes, fails, notes}
use agents_system.Outbox.Changes.{
  claim_commits, claim-has_two_leases, Report, ends, replies, at_id, persist_commits,
  complete_commits, failure_commits, persist_on-rows, fail_on-rows,
}

-- An accepted message leaves the rows, or adds one at their end.
pub accept-rows :
    (inbound_id work_id now : ℕ) (meta payload key channel : String) (box : Outbox) (a : Acceptance)
    → accept_inbound_message inbound_id work_id now meta payload key channel box ≡ ok a
    → (a.box.rows ≡ box.rows)
      ⊎ (a.box.rows
          ≡ box.rows ++ (new_work work_id inbound_id (channel_scoped_key channel key) now ∷ []))
unfolding accept_inbound_message insert_inbound
accept-rows inbound_id work_id now meta payload key channel box a h =
    elim (Option-cases (find_inbound (channel_scoped_key channel meta) box.inbox)) [
      | inl e ↦ inr (ground arith)
      | inr (m, e) ↦ inl (ground arith)
    ]

-- The rows after a transaction: as before, with a new one at the end, with those that a claim
-- selected changed, or with the one that a report found changed.
pub data Effect (max : ℕ) (rows after : List Work) : Type 0 where
  unchanged : after ≡ rows → Effect max rows after
  added :
      (work_id inbound_id now : ℕ) (key : String)
      → ((s : Work) → IsIn s rows → s.id ≢ work_id)
      → after ≡ rows ++ (new_work work_id inbound_id key now ∷ [])
      → Effect max rows after
  leased :
      (now until : ℕ) (worker : String) (locked : ℕ → Bool) (limit : ℕ)
      → has_two_leases after ≡ false
      → after
        ≡ map
            (claimed_row
              (record { now = now; worker_id = worker; until = until; max_attempts = max })
              (pending_outbox_work now limit locked rows))
            rows
      → Effect max rows after
  reported :
      (id : ℕ) (worker : String) (clock : ℕ) (w : Work) (change : Work → Work)
      → IsIn w rows
      → is_live id worker clock w ≡ true
      → Report w change
      → after ≡ map (at_id w.id change) rows
      → Effect max rows after

pub step-Effect :
    (max : ℕ) (box after : Outbox) → Step max box after → Effect max box.rows after.rows
unfolding record_fallback_delivery
step-Effect max box after (accepts i w now meta payload key channel a fresh h) =
    elim (accept-rows i w now meta payload key channel box a h) [
      | inl e ↦ unchanged e
      | inr e ↦ added w i now (channel_scoped_key channel key) fresh e
    ]
step-Effect max box after (claims now locked worker limit lease o h) =
    let (req, r, e) = claim_commits now locked worker limit lease max box o h in
    let picked = pending_outbox_work now limit locked box.rows in
    let rows = ap (λ x. x.box.rows) e ∙ claim_rows-rows req picked box in
    leased now (now + lease) worker locked limit
      (claim-has_two_leases now locked worker limit lease max box o h)
      (rows ∙ ap (λ q. map (claimed_row q picked) box.rows) r)
step-Effect max box after (persists clock id worker body key h) =
    let (w, found, e) = persist_commits clock id worker body key box after h in
    let (same, no_key, no_body) = persist_on-rows body key box after w e in
    reported id worker clock w _ found.0 found.1 (replies body key no_key no_body)
      (ap (λ (x : Outbox). x.rows) same)
step-Effect max box after (completes now clock id worker h) =
    let (w, found, e) = complete_commits now clock id worker box after h in
    reported id worker clock w _ found.0 found.1 (ends now) (ap (λ (x : Outbox). x.rows) e)
step-Effect max box after (fails now clock id worker failure o h) =
    let (w, found, e) = failure_commits now clock id worker failure box o h in
    let (change, r, rows) = fail_on-rows now failure box w o e in
    reported id worker clock w change found.0 found.1 r rows
step-Effect max box after (notes box' now work delivered) = unchanged refl
