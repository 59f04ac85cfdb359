-- ===== src/Queue/Receipts.antt =====
-- SmtpQueue.finish: the receipt of an outcome, and the outcome's effect on handoff and run.
use Prim.Native.String
use research_ops_automation.Base.{
  ℕ, String, Bool, true, false, not, ◌&&◌, ltb, Option, none, some, List, [], ◌∷◌, ◌++◌, find,
  exists, update_where, is_some, Result, ok, err, integrity, if◌then◌else◌,
}
use research_ops_automation.Base.Host.{Host}
use research_ops_automation.Base.Json.{Json, null, bool, str, num, obj, end, field}
use research_ops_automation.Domain.{
  AttemptStatus, AttemptPhase, DeliveryStatus, RunStatus, Phase, Run, Controls, Handoff, Attempt,
  Receipt, Db,
}
use research_ops_automation.Runs.Rows.{run_is, controls_are}
use research_ops_automation.Delivery.Rows.{
  handoff_is, job_is, for_handoff, is_accepted, is_uncertain, is_data_started, receipt_is,
}
use research_ops_automation.Delivery.Timeline.{add_audit, record_delivery_event}
use research_ops_automation.Delivery.Reported.{commit_reported}
use research_ops_automation.Queue.Report.{Outcome, is_failed, status_text, or_text}

unfoldable pub delivery_status : AttemptStatus → DeliveryStatus
delivery_status AttemptStatus.smtp_accepted = DeliveryStatus.smtp_accepted
delivery_status AttemptStatus.connection_ok = DeliveryStatus.connection_ok
delivery_status AttemptStatus.failed = DeliveryStatus.failed
delivery_status AttemptStatus.uncertain = DeliveryStatus.uncertain
delivery_status AttemptStatus.queued = DeliveryStatus.queued
delivery_status AttemptStatus.sending = DeliveryStatus.pending

unfoldable pub run_status_text : RunStatus → String
run_status_text RunStatus.queued = "queued"
run_status_text RunStatus.running = "running"
run_status_text RunStatus.awaiting_receipt = "awaiting_receipt"
run_status_text RunStatus.succeeded = "succeeded"
run_status_text RunStatus.failed = "failed"
run_status_text RunStatus.timed_out = "timed_out"
run_status_text RunStatus.cancelled = "cancelled"
run_status_text RunStatus.needs_attention = "needs_attention"

unfoldable pub receipt_id : String → String
receipt_id job_id = String.◌++◌ "smtp-" job_id

-- the newest other attempt of the handoff that is uncertain and has its receipt
unfoldable pub newest_uncertain : List Receipt → String → String → List Attempt → Option Attempt
newest_uncertain receipts h job_id [] = none
newest_uncertain receipts h job_id (a ∷ as') =
    let best = newest_uncertain receipts h job_id as' in
    if for_handoff h a
      && is_uncertain a.status
      && not (job_is job_id a)
      && exists (receipt_is (receipt_id a.job_id)) receipts
    then some
        (elim best [ none ↦ a | some b ↦ if ltb a.attempt_number b.attempt_number then b else a ])
    else best

unfoldable pub prior_uncertain : String → String → Db → Option Receipt
unfolding newest_uncertain
prior_uncertain h job_id db = elim (newest_uncertain db.receipts h job_id db.attempts) [
  | none ↦ none
  | some a ↦ find (receipt_is (receipt_id a.job_id)) db.receipts
]

abbrev pub still_uncertain : Receipt → Handoff → Handoff
still_uncertain r h = record h {
  status = DeliveryStatus.uncertain;
  external_delivery_status = some DeliveryStatus.uncertain;
  external_receipt_id = some r.external_receipt_id;
  acknowledged_at = some r.occurred_at;
  receipt_sha256 = some r.receipt_sha256;
  decision_reason = some "Previous SMTP attempt remains uncertain; latest retry failed";
}

abbrev pub cancel_set : Option Controls → Bool
cancel_set none = false
cancel_set (some c) = c.cancel_requested

-- {"smtp_accepted":"succeeded", "failed":"failed", "uncertain":"needs_attention"}[status], then the
-- two corrections: an older uncertain attempt, and a cancellation before DATA; connection_ok
-- is only of an attempt without a handoff, for which no run is settled
unfoldable pub run_status : AttemptStatus → Bool → AttemptPhase → Option Controls → RunStatus
run_status AttemptStatus.smtp_accepted prior phase controls = RunStatus.succeeded
run_status AttemptStatus.failed prior phase controls =
    if prior
    then RunStatus.needs_attention
    else if not (is_data_started phase) && cancel_set controls
    then RunStatus.cancelled
    else RunStatus.failed
run_status _ prior phase controls = RunStatus.needs_attention

unfoldable pub unfinished_run : Run → Bool
unfinished_run r = elim r.status [
  | RunStatus.awaiting_receipt ↦ true
  | RunStatus.running ↦ true
  | _ ↦ false
]

abbrev pub settle_run : ℕ → RunStatus → Option String → Run → Run
settle_run now status error r = record r {
  status = status;
  phase = Phase.finalize;
  finished_at = some now;
  error_message = error;
}

module _ (host : Host) where
  abbrev pub error_json : Outcome → Json
  error_json o =
      if is_accepted o.status
      then null
      else obj (
          field "code" (str (or_text o.error_code (String.◌++◌ "smtp_" (status_text o.status)))) (
            field "message" (str (or_text o.error (status_text o.status)))
              (field "retryable" (bool (o.retryable && is_failed o.status)) end)))

  abbrev pub proof_json : String → Json
  proof_json job_id = obj (
      field "type" (str "local_smtp_attempt")
        (field "issuer" (str "researchops-smtp") (field "value" (str job_id) end)))

  -- receipt.to_dict() without the entries that are None
  abbrev pub receipt_json : ℕ → String → Outcome → Attempt → Handoff → Json
  receipt_json now job_id o row h = obj (
      field "external_receipt_id" (str (receipt_id job_id)) (
        field "handoff_id" (str h.handoff_id) (
          field "idempotency_key" (str h.idempotency_key) (
            field "delivery_request_sha256" (str h.delivery_request_sha256) (
              field "status" (str (status_text o.status)) (
                field "occurred_at" (num now) (
                  field "proof" (proof_json job_id) (
                    field "schema_version" (num 2) (
                      field "external_message_ref" (str row.message_id) (
                        if is_accepted o.status
                        then end
                        else field "error" (error_json o) end))))))))))

  abbrev pub receipt_for : ℕ → String → Outcome → Attempt → Handoff → Receipt
  receipt_for now job_id o row h = record {
    external_receipt_id = receipt_id job_id;
    handoff_id = h.handoff_id;
    idempotency_key = h.idempotency_key;
    delivery_request_sha256 = h.delivery_request_sha256;
    status = delivery_status o.status;
    occurred_at = now;
    external_message_ref = some row.message_id;
    error_json = error_json o;
    proof_json = proof_json job_id;
    receipt_sha256 = host.sha256 (host.dumps (receipt_json now job_id o row h));
    imported_at = now;
  }

  abbrev pub received : Outcome → Receipt → Handoff → Handoff
  received o r h = record h {
    status = delivery_status o.status;
    external_receipt_id = some r.external_receipt_id;
    acknowledged_at = some r.occurred_at;
    external_delivery_status = some (delivery_status o.status);
    receipt_sha256 = some r.receipt_sha256;
    receipt_trust_status = some "verified_local_smtp";
    decision_reason =
        if is_accepted o.status
        then some "SMTP server accepted all recipients and DATA"
        else o.error;
  }

  -- the outcome's effect on a research run, which an alert never has
  unfoldable pub settle_message : ℕ → String → Outcome → Attempt → Handoff → Db → Db
  settle_message now job_id o row h db =
      let prior = prior_uncertain h.handoff_id job_id db in
      let controls = find (controls_are h.run_id) db.controls in
      let handoffs : List Handoff = elim prior [
        | none ↦ db.handoffs
        | some r ↦
            if is_failed o.status
            then update_where (handoff_is h.handoff_id) (still_uncertain r) db.handoffs
            else db.handoffs
      ] in
      let status = run_status o.status (is_some prior) row.phase controls in
      let settled = record db {
        handoffs = handoffs;
        runs =
            update_where (λ r. run_is h.run_id r && unfinished_run r)
              (settle_run now status o.error) db.runs;
      } in
      let reported = if is_accepted o.status then commit_reported host h now settled else settled in
      record_delivery_event host job_id "run_step_finished" now (some (run_status_text status))
        reported

  abbrev pub finish_event : ℕ → String → Outcome → Attempt → Handoff → Db → Db
  finish_event now job_id o row h = add_audit (record {
    entity_type = "handoff";
    entity_id = h.handoff_id;
    event_type = String.◌++◌ "smtp_" (status_text o.status);
    details_json = obj (field "job_id" (str job_id) (field "message_id" (str row.message_id) end));
    actor = "smtp-dispatcher";
    occurred_at = now;
  })

  -- INSERT INTO delivery_receipts
  unfoldable pub insert_receipt : Receipt → Db → Result Db
  insert_receipt r db =
      if exists (receipt_is r.external_receipt_id) db.receipts
      then err integrity
      else ok (record db { receipts = db.receipts ++ r ∷ [] })
