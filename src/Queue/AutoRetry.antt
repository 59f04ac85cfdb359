-- ===== src/Queue/AutoRetry.antt =====
-- SmtpQueue.finish: the retry that the queue schedules by itself.
use Prim.Native.String
use research_ops_automation.Base.{
  ℕ, ◌+◌, ◌-◌, ◌*◌, ◌^◌, String, Bool, false, not, ◌&&◌, leb, ltb, Option, none, some, List, [],
  ◌∷◌, find, is_some, Result, ok, err, delivery, integrity, crash, if◌then◌else◌,
}
use research_ops_automation.Base.Host.{Host}
use research_ops_automation.Base.Json.{bool, str, obj, end, field}
use research_ops_automation.Domain.{Controls, Handoff, Attempt, Db}
use research_ops_automation.Runs.Rows.{controls_are}
use research_ops_automation.Runs.Claim.{seconds}
use research_ops_automation.Delivery.Rows.{is_alert, for_handoff}
use research_ops_automation.Delivery.Timeline.{add_audit}
use research_ops_automation.Queue.Retry.{RetryCall, insert_retry}
use research_ops_automation.Queue.Report.{Outcome, RetryPolicy, is_failed}
use research_ops_automation.Queue.Receipts.{prior_uncertain}

-- a retry that the queue may schedule by itself
unfoldable pub auto_retry_allowed :
    Outcome → RetryPolicy → Handoff → Bool → Attempt → Option Controls → Bool
auto_retry_allowed o policy h prior row controls =
    o.retryable
    && is_failed o.status
    && policy.smtp_auto_retry
    && not (is_alert h)
    && not prior
    && ltb row.attempt_number policy.smtp_max_attempts
    && (elim controls [ none ↦ false | some c ↦ not c.cancel_requested ])

-- created_at of the handoff's attempt with the least number
unfoldable pub first_attempt : String → List Attempt → Option Attempt
first_attempt h [] = none
first_attempt h (a ∷ as') =
    let best = first_attempt h as' in
    if for_handoff h a
    then some
        (elim best [ none ↦ a | some b ↦ if ltb b.attempt_number a.attempt_number then b else a ])
    else best

module _ (host : Host) where
  -- `due`: base * 2 ** (attempt_number - 1) seconds from now
  abbrev pub retry_due : ℕ → RetryPolicy → Attempt → ℕ
  retry_due now policy row =
      now + seconds (policy.smtp_retry_base_seconds * 2 ^ (row.attempt_number - 1))

  abbrev pub auto_call : String → Attempt → String → RetryCall
  auto_call job_id row h = record {
    request_key = String.◌++◌ "auto-" job_id;
    request = field "handoff_id" (str h) (
        field "mode" (str "automatic")
          (field "allow_uncertain" (bool false) (field "reason" (str "") end)));
    config_revision = row.config_revision;
    allow_uncertain = false;
  }

  abbrev pub blocked_event : ℕ → String → String → Db → Db
  blocked_event now job_id h = add_audit (record {
    entity_type = "handoff";
    entity_id = h;
    event_type = "email_auto_retry_blocked";
    details_json =
        obj (field "job_id" (str job_id) (field "reason_code" (str "retry_state_conflict") end));
    actor = "smtp-queue";
    occurred_at = now;
  })

  -- SAVEPOINT, ROLLBACK TO where the retry raises DeliveryError or IntegrityError
  unfoldable pub keep_outcome : ℕ → String → String → Db → Result Db → Result Db
  keep_outcome now job_id h db (ok db') = ok db'
  keep_outcome now job_id h db (err (delivery m)) = ok (blocked_event now job_id h db)
  keep_outcome now job_id h db (err integrity) = ok (blocked_event now job_id h db)
  keep_outcome now job_id h db (err e) = err e

  unfoldable pub schedule_retry :
      ℕ → String → String → Attempt → String → RetryPolicy → Option Attempt → Db → Result Db
  schedule_retry now fresh job_id row h policy none db = err crash
  schedule_retry now fresh job_id row h policy (some first) db =
      let due = retry_due now policy row in
      let expiry = first.created_at + seconds policy.smtp_retry_expiry_seconds in
      if leb due expiry
      then keep_outcome now job_id h db
          (insert_retry host now fresh row h due (auto_call job_id row h) (some expiry) db)
      else ok db

  unfoldable pub auto_retry :
      ℕ → String → String → Outcome → Attempt → Handoff → Option RetryPolicy → Db → Result Db
  auto_retry now fresh job_id o row h none db = ok db
  auto_retry now fresh job_id o row h (some policy) db =
      if auto_retry_allowed o policy h (is_some (prior_uncertain h.handoff_id job_id db)) row
        (find (controls_are h.run_id) db.controls)
      then schedule_retry now fresh job_id row h.handoff_id policy
          (first_attempt h.handoff_id db.attempts) db
      else ok db
