-- ===== src/Queue/Calls.antt =====
-- The theorems on single operations of the queue at a message of one run.

use research_ops_automation.Base.{
  ℕ, ◌+◌, ◌≤◌, ◌<◌, String, Bool, true, false, not, ◌&&◌, ◌||◌, ◌==◌, ◌≡◌, refl, Option, none, some,
  List, [], ◌∷◌, find, exists, count_where, update_where, All, opt_str_eq, is_some, Result, ok, err,
  is_ok, arith, ◌⊎◌,
}
use research_ops_automation.Base.Json.{Json, Fields, end, field, str}
use research_ops_automation.Domain.{
  RunStatus, AttemptStatus, AttemptPhase, DeliveryMode, Attempt, Db,
}
use research_ops_automation.Runs.Steps.{settle, settled_ok}
use research_ops_automation.Runs.Claim.{seconds}
use research_ops_automation.Delivery.Rows.{
  job_is, for_handoff, is_live, is_alert, is_queued, is_data_started, is_accepted, is_sending,
  is_prepared, is_uncertain,
}
use research_ops_automation.Queue.Insert.{Message, enqueue}
use research_ops_automation.Queue.Retry.{RetryCall}
use research_ops_automation.Queue.Report.{Outcome, RetryPolicy}
use research_ops_automation.Queue.Endings.{known_unsure, auto_retry_bounded}
use research_ops_automation.Queue.Permissions.{start_data_permitted}
use research_ops_automation.Queue.Requests.{
  enqueue-enqueue, retry-retry, retry_acknowledged, unsure,
}
use research_ops_automation.Queue.Dispatch
use research_ops_automation.Queue.Dispatch.{Permission, permission, expired, start_data}
use research_ops_automation.Queue.Retry.{retry, requested, retriable, latest}
use research_ops_automation.Queue.AutoRetry.{auto_retry, first_attempt, retry_due}
use research_ops_automation.Queue.Receipts.{prior_uncertain, insert_receipt}
use research_ops_automation.Queue.Report.{finished_attempt, is_result, check_finish}
use research_ops_automation.Delivery.Timeline.{
  record_delivery_event, record_for, run_of, message_of,
}
use research_ops_automation.Delivery.Authorization.{assert_delivery_version}
use research_ops_automation.Queue.Recovery.{cancel_pending_for_run}
use research_ops_automation.Queue.Cancelling.{IsSettled, cancel_settles}
use research_ops_automation.Samples.{controls, host, message, attempt, db}
use research_ops_automation.Queue.Examples.{
  waiting_attempt, outcome, mail, again, sending_attempt, sending_db,
}

abbrev started_db : Db
started_db =
    settle (sending_db AttemptPhase.prepared)
      (start_data host 40 "job-1" "token-1" false (sending_db AttemptPhase.prepared))

start_data_permitted_example :
    (p : Permission) × (permission "handoff-1" (sending_db AttemptPhase.prepared) ≡ some p)
    × (expired 40 (sending_attempt AttemptPhase.prepared) ≡ false)
    × (p.task.delivery_mode ≡ DeliveryMode.handoff)
    × (p.controls.force_dry_run ≡ false)
    × (false ≡ false
        → (p.task.delivery_approved ≡ true)
          × (opt_str_eq p.task.approved_version_hash p.handoff.task_version_hash ≡ true))
    × (is_alert p.handoff ≡ false
        → (p.controls.cancel_requested ≡ false) × (p.run.status ≡ RunStatus.awaiting_receipt))
    × (assert_delivery_version host p.handoff.task_id p.handoff.task_version_hash
          (some p.handoff.run_id)
          false
          (is_alert p.handoff)
          (sending_db AttemptPhase.prepared)
        ≡ ok tt)
unfolding find start_data expired Dispatch.require_permission permission Dispatch.revoked
    research_ops_automation.Delivery.Authorization.is_handoff_mode
    research_ops_automation.Delivery.Rows.is_candidate assert_delivery_version
    research_ops_automation.Delivery.Authorization.active_version exists
    research_ops_automation.Delivery.Authorization.stored_authorization
    research_ops_automation.Delivery.Authorization.read_delivery_authorization
    research_ops_automation.Delivery.Authorization.assert_authorized is_sending is_prepared
start_data_permitted_example =
    start_data_permitted host 40 "job-1" "token-1" "handoff-1" false
      (sending_attempt AttemptPhase.prepared) (sending_db AttemptPhase.prepared) started_db refl
      refl
      (settled_ok (sending_db AttemptPhase.prepared)
        (start_data host 40 "job-1" "token-1" false (sending_db AttemptPhase.prepared)) refl)

abbrev failed_attempt : Attempt
failed_attempt = attempt AttemptStatus.failed AttemptPhase.finished

-- the run whose message has failed
abbrev failed_db : Db
failed_db = db RunStatus.failed (failed_attempt ∷ [])

abbrev policy : RetryPolicy
policy = record {
  smtp_auto_retry = true;
  smtp_max_attempts = 3;
  smtp_retry_base_seconds = 60;
  smtp_retry_expiry_seconds = 3600;
}

abbrev rescheduled : Result Db
rescheduled =
    auto_retry host 50 "job-2" "job-1" (outcome AttemptStatus.failed) failed_attempt message
      (some policy) failed_db

auto_retry_bounded_example :
    ((settle failed_db rescheduled).attempts ≡ failed_db.attempts)
    ⊎ ((first : Attempt) × (first_attempt "handoff-1" failed_db.attempts ≡ some first)
        × (true ≡ true)
        × (AttemptStatus.failed ≡ AttemptStatus.failed)
        × (exists (known_unsure "handoff-1" "job-1" failed_db) failed_db.attempts ≡ false)
        × (1 < 3)
        × (retry_due host 50 policy failed_attempt ≤ first.created_at + seconds 3600))
unfolding auto_retry research_ops_automation.Queue.AutoRetry.auto_retry_allowed
    research_ops_automation.Queue.Report.is_failed prior_uncertain
    research_ops_automation.Queue.Receipts.newest_uncertain is_uncertain
    research_ops_automation.Queue.AutoRetry.schedule_retry first_attempt
    research_ops_automation.Queue.AutoRetry.keep_outcome
    research_ops_automation.Queue.Retry.insert_retry
    research_ops_automation.Delivery.RetryGuard.require_retry_family_clear
    research_ops_automation.Delivery.RetryGuard.check_rows
    research_ops_automation.Delivery.RetryGuard.family_rows
    research_ops_automation.Delivery.RetryGuard.with_handoffs
    research_ops_automation.Delivery.RetryGuard.counts
    research_ops_automation.Delivery.RetryGuard.in_family
    research_ops_automation.Delivery.RetryGuard.family_root
    research_ops_automation.Delivery.RetryGuard.climb
    research_ops_automation.Delivery.RetryGuard.run_pending
    research_ops_automation.Delivery.RetryGuard.handoff_pending
    research_ops_automation.Delivery.RetryGuard.perhaps_delivered
    research_ops_automation.Queue.Retry.controls_refuse exists
    research_ops_automation.Delivery.Rows.is_live
    research_ops_automation.Queue.Insert.insert_attempt research_ops_automation.Queue.Insert.clashes
    research_ops_automation.Delivery.Rows.is_pending
    research_ops_automation.Queue.Insert.handoff_exists research_ops_automation.Queue.Retry.reopens
    research_ops_automation.Base.Table.remove_where research_ops_automation.Base.Table.select
    research_ops_automation.Delivery.Rows.is_candidate find
auto_retry_bounded_example =
    auto_retry_bounded host 50 "job-2" "job-1" (outcome AttemptStatus.failed) failed_attempt message
      policy failed_db (settle failed_db rescheduled) (settled_ok failed_db rescheduled refl)

enqueue-enqueue_example :
    enqueue host 70 mail (
      settle
        (db RunStatus.awaiting_receipt [])
        (enqueue host 60 mail (db RunStatus.awaiting_receipt [])))
    ≡ ok (
        settle
          (db RunStatus.awaiting_receipt [])
          (enqueue host 60 mail (db RunStatus.awaiting_receipt [])))
unfolding enqueue research_ops_automation.Queue.Insert.insert_message exists
    research_ops_automation.Queue.Insert.insert_attempt
    research_ops_automation.Queue.Insert.handoff_exists
    research_ops_automation.Queue.Insert.confirm_message find
    research_ops_automation.Queue.Insert.differs research_ops_automation.Base.Json.same_json
enqueue-enqueue_example =
    enqueue-enqueue host 60 70 mail (db RunStatus.awaiting_receipt [])
      (settle (db RunStatus.awaiting_receipt [])
        (enqueue host 60 mail (db RunStatus.awaiting_receipt [])))
      (settled_ok (db RunStatus.awaiting_receipt [])
        (enqueue host 60 mail (db RunStatus.awaiting_receipt [])) refl)

-- the answer of a call, where it gives one
abbrev answered : Result (String × Db) → String × Db
answered (ok s) = s
answered (err e) = ("", failed_db)

answered_ok : (r : Result (String × Db)) → is_ok r ≡ true → r ≡ ok (answered r)
answered_ok (ok s) h = refl
answered_ok (err e) h = cc

abbrev retried : Result (String × Db)
retried = retry host 60 "job-2" "job-1" again failed_db

retried-answered : retried ≡ ok (answered retried)
unfolding retry requested research_ops_automation.Queue.Retry.retry_unseen
    research_ops_automation.Queue.Retry.new_retry research_ops_automation.Queue.Retry.remember
    retriable is_uncertain latest research_ops_automation.Queue.Retry.insert_retry
    research_ops_automation.Delivery.RetryGuard.require_retry_family_clear
    research_ops_automation.Delivery.RetryGuard.check_rows
    research_ops_automation.Delivery.RetryGuard.family_rows
    research_ops_automation.Delivery.RetryGuard.with_handoffs
    research_ops_automation.Delivery.RetryGuard.counts
    research_ops_automation.Delivery.RetryGuard.in_family
    research_ops_automation.Delivery.RetryGuard.family_root
    research_ops_automation.Delivery.RetryGuard.climb
    research_ops_automation.Delivery.RetryGuard.run_pending
    research_ops_automation.Delivery.RetryGuard.handoff_pending
    research_ops_automation.Delivery.RetryGuard.perhaps_delivered
    research_ops_automation.Queue.Retry.controls_refuse exists
    research_ops_automation.Delivery.Rows.is_live
    research_ops_automation.Queue.Insert.insert_attempt research_ops_automation.Queue.Insert.clashes
    research_ops_automation.Delivery.Rows.is_pending
    research_ops_automation.Queue.Insert.handoff_exists research_ops_automation.Queue.Retry.reopens
    research_ops_automation.Base.Table.remove_where research_ops_automation.Base.Table.select
    research_ops_automation.Delivery.Rows.is_candidate find
    research_ops_automation.Queue.Retry.renewed record_delivery_event
    research_ops_automation.Delivery.Timeline.add_audit record_for run_of message_of update_where
retried-answered = answered_ok retried refl

retry-retry_example :
    retry host 70 "job-3" "job-1" again (answered retried).1 ≡ ok (answered retried)
retry-retry_example =
    retry-retry host 60 70 "job-2" "job-3" "job-1" again failed_db (answered retried)
      retried-answered

retry_acknowledged_example :
    (retriable host AttemptStatus.failed ≡ true)
    × ((a : Attempt) × (latest "handoff-1" failed_db.attempts ≡ some a) × (a.job_id ≡ "job-1"))
    × (exists (unsure host "handoff-1") failed_db.attempts ≡ true → true ≡ true)
unfolding find requested
retry_acknowledged_example =
    retry_acknowledged host 60 "job-2" "job-1" "handoff-1" again failed_db failed_attempt
      (answered retried) refl refl refl retried-answered

-- the run's cancellation was requested while its message waits
abbrev cancelled_db : Db
cancelled_db = record (db RunStatus.awaiting_receipt (waiting_attempt ∷ [])) {
  controls = record controls { cancel_requested = true } ∷ [];
}

cancel_settles_example :
    All
      (IsSettled "run-1" cancelled_db.handoffs)
      (cancel_pending_for_run host 80 "run-1" cancelled_db).1.attempts
unfolding cancel_pending_for_run exists is_sending Dispatch.is_awaiting
cancel_settles_example = cancel_settles host 80 "run-1" cancelled_db refl
