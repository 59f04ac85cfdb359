-- ===== src/Queue/Retry.antt =====
-- SmtpQueue.retry, requested and _insert_retry. A request is the text that json.dumps gives for it.

use research_ops_automation.Base.{
  ℕ, ◌+◌, String, Bool, true, false, not, ◌&&◌, ◌||◌, ◌==◌, leb, ltb, Option, none, some, List, [],
  ◌∷◌, ◌++◌, find, exists, update_where, opt_str_eq, Result, ok, err, delivery, integrity, ◌>>=◌,
  ◌>>◌, guard, require, if◌then◌else◌,
}
use research_ops_automation.Base.Host.{Host}
use research_ops_automation.Base.Json.{Json, Fields, str, num, obj, field}
use research_ops_automation.Domain.{
  AttemptStatus, AttemptPhase, DeliveryStatus, RunStatus, Phase, Run, Controls, Handoff, Attempt,
  RetryRequest, Db,
}
use research_ops_automation.Runs.Rows.{run_is, controls_are, truthy}
use research_ops_automation.Delivery.Rows.{
  handoff_is, is_alert, job_is, for_handoff, is_live, is_uncertain,
}
use research_ops_automation.Delivery.RetryGuard.{require_retry_family_clear}
use research_ops_automation.Delivery.Timeline.{add_audit, record_delivery_event}
use research_ops_automation.Queue.Insert.{insert_attempt}

-- ORDER BY attempt_number DESC LIMIT 1 among the rows of the handoff
unfoldable pub latest : String → List Attempt → Option Attempt
latest h [] = none
latest h (a ∷ as') =
    let best = latest h as' in
    if for_handoff h a
    then some
        (elim best [ none ↦ a | some b ↦ if ltb a.attempt_number b.attempt_number then b else a ])
    else best

-- the request of an operator or of the queue itself
pub record RetryCall : Type 0 where
  pub request_key : String
  pub request : Fields
  pub config_revision : String
  pub allow_uncertain : Bool

abbrev pub retry_is : String → RetryRequest → Bool
retry_is key r = r.request_key == key

abbrev pub by_key : String → Attempt → Bool
by_key key a = opt_str_eq a.request_key key

unfoldable pub controls_refuse : Option Controls → Bool
controls_refuse none = true
controls_refuse (some c) = c.cancel_requested || c.force_dry_run

-- status IN ('failed','needs_attention')
unfoldable pub reopens : Run → Bool
reopens r = elim r.status [ RunStatus.failed ↦ true | RunStatus.needs_attention ↦ true | _ ↦ false ]

abbrev pub reopened : Run → Run
reopened r = record r {
  status = RunStatus.awaiting_receipt;
  phase = Phase.finalize;
  finished_at = none;
  error_message = none;
}

abbrev pub requeued : Handoff → Handoff
requeued h = record h {
  status = DeliveryStatus.queued;
  external_receipt_id = none;
  acknowledged_at = none;
  external_delivery_status = none;
  receipt_sha256 = none;
  receipt_trust_status = none;
  decision_reason = some "Email retry queued";
}

abbrev text_or_null : Option String → Json
text_or_null none = Json.null
text_or_null (some s) = str s

module _ (host : Host) where
  -- `job_id` is "smtp-retry-" and a fresh UUID
  abbrev pub retry_attempt : ℕ → String → Attempt → ℕ → RetryCall → Option ℕ → Attempt
  retry_attempt now job_id row due call expires_at = record {
    job_id = job_id;
    handoff_id = row.handoff_id;
    status = AttemptStatus.queued;
    phase = AttemptPhase.prepared;
    claim_token = none;
    claim_pid = none;
    message_id = row.message_id;
    mime_bytes = row.mime_bytes;
    mime_sha256 = row.mime_sha256;
    envelope_json = row.envelope_json;
    config_revision = call.config_revision;
    created_at = now;
    updated_at = now;
    error = none;
    server_reply = none;
    parent_job_id = some row.job_id;
    attempt_number = row.attempt_number + 1;
    request_key = some call.request_key;
    request_json = some (host.dumps (obj call.request));
    next_attempt_at = some due;
    error_code = none;
    retryable = false;
    diagnostics_json = none;
    expires_at = expires_at;
  }

  -- the handoff and its run wait for the new attempt
  unfoldable pub renewed : ℕ → String → Attempt → String → ℕ → RetryCall → Handoff → Db → Db
  renewed now job_id row handoff_id due call handoff db =
      let details = obj (
        field "job_id" (str job_id) (
          field "parent_job_id" (str row.job_id) (
            field "attempt_number" (num (row.attempt_number + 1))
              (field "next_attempt_at" (num due) call.request)))) in
      record_delivery_event host job_id "run_delivery_queued" now none (
        add_audit
          (record {
            entity_type = "handoff";
            entity_id = handoff_id;
            event_type = "email_retry_queued";
            details_json = details;
            actor = "smtp-queue";
            occurred_at = now;
          })
          (record db {
            handoffs = update_where (handoff_is handoff_id) requeued db.handoffs;
            runs = update_where (λ r. run_is handoff.run_id r && reopens r) reopened db.runs;
          }))

  unfoldable pub insert_retry :
      ℕ → String → Attempt → String → ℕ → RetryCall → Option ℕ → Db → Result Db
  insert_retry now job_id row handoff_id due call expires_at db = do
    handoff ←
        require (find (handoff_is handoff_id) db.handoffs)
          (delivery "Email retries require a research handoff")
    guard (is_alert handoff) (delivery "Email retries require a research handoff")
    require_retry_family_clear handoff.run_id true false db
    guard (controls_refuse (find (controls_are handoff.run_id) db.controls))
        (delivery "Cancelled or dry-run email cannot be retried")
    guard (exists (λ a. for_handoff handoff_id a && is_live a.status) db.attempts)
        (delivery "Email is already pending or accepted")
    db₁ ← insert_attempt (retry_attempt now job_id row due call expires_at) db
    guard (not (exists (λ r. run_is handoff.run_id r && reopens r) db.runs))
        (delivery "Run state changed before email retry")
    ok (renewed now job_id row handoff_id due call handoff db₁)

  -- status not in ('failed','uncertain','queued')
  unfoldable pub retriable : AttemptStatus → Bool
  retriable AttemptStatus.failed = true
  retriable AttemptStatus.uncertain = true
  retriable AttemptStatus.queued = true
  retriable _ = false

  abbrev pub is_other : String → Option Attempt → Bool
  is_other job_id none = true
  is_other job_id (some a) = not (a.job_id == job_id)

  -- not a scheduled retry that is still to come
  unfoldable pub immediate : ℕ → Attempt → Bool
  immediate now a =
      not (truthy a.parent_job_id) || (elim a.next_attempt_at [ none ↦ true | some t ↦ leb t now ])

  -- a retry that waits is made due now
  unfoldable pub expedite : ℕ → String → Attempt → String → RetryCall → Db → Result Db
  unfolding immediate
  expedite now job_id row handoff_id call db = do
    guard (immediate now row) (delivery "Email is already queued for immediate dispatch")
    ok (
        add_audit
          (record {
            entity_type = "handoff";
            entity_id = handoff_id;
            event_type = "email_retry_expedited";
            details_json = obj (field "job_id" (str job_id) call.request);
            actor = "single-operator";
            occurred_at = now;
          })
          (record db {
            attempts =
                update_where (job_is job_id)
                  (λ a. record a { next_attempt_at = some now; updated_at = now }) db.attempts;
          }))

  -- the job of the answer, and the tables after it
  unfoldable pub new_retry :
      ℕ → String → String → Attempt → String → RetryCall → Db → Result (String × Db)
  new_retry now fresh job_id row handoff_id call db = elim row.status [
    | AttemptStatus.queued ↦ expedite now job_id row handoff_id call db >>= λ db'. ok (job_id, db')
    | _ ↦ insert_retry now fresh row handoff_id now call none db >>= λ db'. ok (fresh, db')
  ]

  abbrev pub request_row : ℕ → RetryCall → String → RetryRequest
  request_row now call job_id = record {
    request_key = call.request_key;
    job_id = job_id;
    request_json = host.dumps (obj call.request);
    created_at = now;
  }

  -- INSERT INTO smtp_retry_requests
  unfoldable pub remember : ℕ → RetryCall → String × Db → Result (String × Db)
  remember now call (job_id, db) =
      if exists (retry_is call.request_key) db.retry_requests
      then err integrity
      else ok (
        job_id,
        record db { retry_requests = db.retry_requests ++ request_row now call job_id ∷ [] },
      )

  -- an answer that was given before, to the same request
  unfoldable pub requested : RetryCall → Db → Result (Option String)
  requested call db = elim (find (retry_is call.request_key) db.retry_requests) [
    | some cached ↦
        guard (not (cached.request_json == host.dumps (obj call.request)))
          (delivery "Retry request key was already used for a different request")
        >> ok (some cached.job_id)
    | none ↦ (elim (find (by_key call.request_key) db.attempts) [
      | none ↦ ok none
      | some prior ↦
          guard (not (opt_str_eq prior.request_json (host.dumps (obj call.request))))
            (delivery "Retry request key was already used for a different request")
          >> ok (some prior.job_id)
    ])
  ]

  unfoldable pub retry_unseen : ℕ → String → String → RetryCall → Db → Result (String × Db)
  retry_unseen now fresh job_id call db = do
    row ←
        require (find (job_is job_id) db.attempts)
          (delivery "Only a completed failed email can be retried")
    handoff_id ← require row.handoff_id (delivery "Only a completed failed email can be retried")
    guard (not (retriable row.status)) (delivery "Only a completed failed email can be retried")
    guard
        (exists (λ a. for_handoff handoff_id a && is_uncertain a.status) db.attempts
          && not call.allow_uncertain)
        (delivery "SMTP result is uncertain; duplicate delivery acknowledgement is required")
    guard (is_other job_id (latest handoff_id db.attempts))
        (delivery "A newer email attempt already exists")
    result ← new_retry now fresh job_id row handoff_id call db
    remember now call result

  abbrev pub answer : ℕ → String → String → RetryCall → Db → Option String → Result (String × Db)
  answer now fresh job_id call db (some seen) = ok (seen, db)
  answer now fresh job_id call db none = retry_unseen now fresh job_id call db

  -- The answer is the job, whose row the code returns; `fresh` is the id a new attempt would get.
  unfoldable pub retry : ℕ → String → String → RetryCall → Db → Result (String × Db)
  retry now fresh job_id call db = requested call db >>= answer now fresh job_id call db
