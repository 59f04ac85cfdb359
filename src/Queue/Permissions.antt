-- ===== src/Queue/Permissions.antt =====
-- When SmtpQueue.start_data lets DATA be sent.

use research_ops_automation.Base.{
  ℕ, String, Bool, true, false, Bool-cases, Option-cases, Result-cases, ◌≡◌, some, find, opt_str_eq,
  ok, arith, inl, inr,
}
use research_ops_automation.Base.Host.{Host}
use research_ops_automation.Domain.{DeliveryMode, RunStatus, Attempt, Db}
use research_ops_automation.Delivery.Rows.{job_is, is_alert}
use research_ops_automation.Delivery.Authorization.{is_handoff_mode, assert_delivery_version}
use research_ops_automation.Queue.Dispatch.{
  start_data, require_permission, permission, Permission, revoked, is_awaiting, expired,
}

-- what a permission that is not revoked says
permitted :
    (production : Bool) (row : Attempt) (p : Permission)
    → revoked production row p ≡ false
    → (p.task.delivery_mode ≡ DeliveryMode.handoff)
      × (p.controls.force_dry_run ≡ false)
      × (production ≡ false
          → (p.task.delivery_approved ≡ true)
            × (opt_str_eq p.task.approved_version_hash p.handoff.task_version_hash ≡ true))
      × (is_alert p.handoff ≡ false
          → (p.controls.cancel_requested ≡ false) × (p.run.status ≡ RunStatus.awaiting_receipt))
unfolding revoked is_handoff_mode is_awaiting
permitted production row p h = (
  ground arith,
  ground arith,
  λ n. (ground arith, ground arith),
  λ n. (ground arith, ground arith),
)

module _ (host : Host) where
  granted :
      (production : Bool) (row : Attempt) (id : String) (db : Db)
      → row.handoff_id ≡ some id
      → require_permission host production row db ≡ ok tt
      → (p : Permission) × (permission id db ≡ some p)
        × (revoked production row p ≡ false)
        × (assert_delivery_version host p.handoff.task_id p.handoff.task_version_hash
              (some p.handoff.run_id)
              production
              (is_alert p.handoff)
              db
            ≡ ok tt)
  unfolding require_permission
  granted production row id db o h = elim (Option-cases (permission id db)) [
    | inl n ↦ absurd (ground arith)
    | inr (p, e) ↦ elim (Bool-cases (revoked production row p)) [
      | inl t ↦ absurd (ground arith)
      | inr f ↦ (p, e, f, rw (o, e, f, require_permission) at h)
    ]
  ]

  -- Where start_data succeeds on an attempt of a handoff, the attempt has not expired; the
  -- handoff has its task, run and controls; the task is in handoff mode; the run is not forced
  -- dry; outside production the task's delivery is approved for the message's version; a message
  -- that is no alert has no cancellation requested and its run is awaiting its receipt; and
  -- assert_delivery_version accepts the message's version.
  pub start_data_permitted :
      (now : ℕ) (job token id : String) (production : Bool) (row : Attempt) (db d : Db)
      → find (job_is job) db.attempts ≡ some row
      → row.handoff_id ≡ some id
      → start_data host now job token production db ≡ ok d
      → (p : Permission) × (permission id db ≡ some p)
        × (expired now row ≡ false)
        × (p.task.delivery_mode ≡ DeliveryMode.handoff)
        × (p.controls.force_dry_run ≡ false)
        × (production ≡ false
            → (p.task.delivery_approved ≡ true)
              × (opt_str_eq p.task.approved_version_hash p.handoff.task_version_hash ≡ true))
        × (is_alert p.handoff ≡ false
            → (p.controls.cancel_requested ≡ false) × (p.run.status ≡ RunStatus.awaiting_receipt))
        × (assert_delivery_version host p.handoff.task_id p.handoff.task_version_hash
              (some p.handoff.run_id)
              production
              (is_alert p.handoff)
              db
            ≡ ok tt)
  unfolding start_data
  start_data_permitted now job token id production row db d e o h =
      elim (Bool-cases (expired now row)) [
        | inl t ↦ absurd (ground arith)
        | inr f ↦ elim (Result-cases (require_permission host production row db)) [
          | inr (x, q) ↦ absurd (ground arith)
          | inl (u, q) ↦
              let (p, here, kept, version) = granted production row id db o q in
              let (mode, wet, approved, wanted) = permitted production row p kept in
              (p, here, f, mode, wet, approved, wanted, version)
        ]
      ]
