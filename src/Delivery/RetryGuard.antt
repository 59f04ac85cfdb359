-- ===== src/Delivery/RetryGuard.antt =====
-- researchops/delivery/retry_guard.py: no retry while an email of the same run family is pending
-- or uncertain.

use research_ops_automation.Base.{
  ℕ, zero, suc, String, Bool, true, false, not, ◌&&◌, ◌||◌, ◌==◌, Option, none, some, List, [], ◌∷◌,
  ◌++◌, map, find, exists, select, remove_where, length, Result, ok, err, delivery, if◌then◌else◌,
}
use research_ops_automation.Domain.{RunStatus, DeliveryStatus, Run, Handoff, Controls, Receipt, Db}
use research_ops_automation.Runs.Rows.{run_is, controls_are, truthy}
use research_ops_automation.Delivery.Rows.{
  is_alert, is_candidate, is_accepted, is_uncertain, for_handoff,
}

-- parent_run_id, where it is neither None nor empty
abbrev pub parent_id : Option Run → Option String
parent_id none = none
parent_id (some r) = if truthy r.parent_run_id then r.parent_run_id else none

-- `while root not in seen`: the rows already seen are taken out, so that a run is looked up once;
-- a run that has been seen, or has no row or no parent, ends the loop as the root.
unfoldable pub climb : ℕ → List Run → String → String
climb zero rows root = root
climb (suc fuel) rows root = elim (parent_id (find (run_is root) rows)) [
  | none ↦ root
  | some parent ↦ climb fuel (remove_where (run_is root) rows) parent
]

-- Every round takes out a row, so there are at most as many rounds as rows.
unfoldable pub family_root : List Run → String → String
unfolding climb
family_root runs run_id = climb (length runs) runs run_id

-- the recursive query `family`: the root, and every run whose parent is in the family
unfoldable pub in_family : ℕ → List Run → String → String → Bool
in_family zero runs root id = id == root
in_family (suc fuel) runs root id = id == root || (elim (find (run_is id) runs) [
  | none ↦ false
  | some r ↦ (elim r.parent_run_id [ none ↦ false | some p ↦ in_family fuel runs root p ])
])

abbrev dry_run_forced : Option Controls → Bool
dry_run_forced none = false
dry_run_forced (some c) = c.force_dry_run

-- a run of the family that delivers for real
unfoldable pub counts : String → Db → Run → Bool
unfolding in_family
counts root db r =
    in_family (length db.runs) db.runs root r.run_id
    && not (dry_run_forced (find (controls_are r.run_id) db.controls))
    && not (is_candidate r.trigger_type)

-- the LEFT JOIN of a run with its handoffs
unfoldable pub with_handoffs : Run → List Handoff → List (Run × Option Handoff)
with_handoffs r [] = (r, none) ∷ []
with_handoffs r (h ∷ hs) = map (λ (x : Handoff). (r, some x)) (h ∷ hs)

unfoldable pub family_rows : String → Db → List Run → List (Run × Option Handoff)
unfolding with_handoffs
family_rows root db [] = []
family_rows root db (r ∷ rs) =
    let rest = family_rows root db rs in
    let handoffs = select (λ (h : Handoff). h.run_id == r.run_id && not (is_alert h)) db.handoffs in
    if counts root db r then with_handoffs r handoffs ++ rest else rest

-- a receipt that says accepted or uncertain
unfoldable pub receipt_counts : DeliveryStatus → Bool
receipt_counts DeliveryStatus.sent = true
receipt_counts DeliveryStatus.accepted = true
receipt_counts DeliveryStatus.smtp_accepted = true
receipt_counts DeliveryStatus.uncertain = true
receipt_counts _ = false

unfoldable pub handed_over : DeliveryStatus → Bool
handed_over DeliveryStatus.sent = true
handed_over DeliveryStatus.acknowledged = true
handed_over DeliveryStatus.uncertain = true
handed_over _ = false

abbrev externally_accepted : Option DeliveryStatus → Bool
externally_accepted (some DeliveryStatus.smtp_accepted) = true
externally_accepted _ = false

-- delivered, or perhaps delivered
unfoldable pub perhaps_delivered : Db → Option Handoff → Bool
unfolding receipt_counts handed_over
perhaps_delivered db none = false
perhaps_delivered db (some h) =
    handed_over h.status
    || externally_accepted h.external_delivery_status
    || exists (λ a. for_handoff h.handoff_id a && (is_accepted a.status || is_uncertain a.status))
        db.attempts
    || exists (λ (r : Receipt). r.handoff_id == h.handoff_id && receipt_counts r.status) db.receipts

unfoldable pub run_pending : RunStatus → Bool
run_pending RunStatus.queued = true
run_pending RunStatus.running = true
run_pending RunStatus.awaiting_receipt = true
run_pending _ = false

unfoldable pub handoff_pending : Option Handoff → Bool
handoff_pending none = false
handoff_pending (some h) = elim h.status [
  | DeliveryStatus.published ↦ true
  | DeliveryStatus.queued ↦ true
  | DeliveryStatus.uncertain ↦ true
  | _ ↦ false
]

-- the loop over the rows
unfoldable pub check_rows :
    String → Bool → Bool → Db → List (Run × Option Handoff) → Result (Unit {0})
unfolding run_pending handoff_pending
check_rows run_id email_only prepared_email db [] = ok tt
check_rows run_id email_only prepared_email db ((r, h) ∷ rows) =
    let rest = check_rows run_id email_only prepared_email db rows in
    if prepared_email && perhaps_delivered db h
    then err (
        delivery
          "Related email was accepted or its delivery is uncertain; stored mail cannot be sent again")
    else if email_only && r.run_id == run_id
    then rest
    else if run_pending r.status || handoff_pending h
    then err (
        delivery
          "Related email is pending or uncertain; use the email retry controls after checking delivery")
    else rest

unfoldable pub require_retry_family_clear : String → Bool → Bool → Db → Result (Unit {0})
require_retry_family_clear run_id email_only prepared_email db =
    check_rows run_id email_only prepared_email db
      (family_rows (family_root db.runs run_id) db db.runs)
