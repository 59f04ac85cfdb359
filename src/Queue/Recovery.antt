-- ===== src/Queue/Recovery.antt =====
-- SmtpQueue.recover_interrupted and cancel_pending_for_run.
use research_ops_automation.Base.{
  ℕ, String, Bool, true, false, not, ◌&&◌, ◌==◌, ltb, Option, none, some, List, [], ◌∷◌, find,
  exists, select, update_where, opt_str_eq, Result, ok, err, ◌>>=◌, if◌then◌else◌,
}
use research_ops_automation.Base.Host.{Host}
use research_ops_automation.Domain.{
  AttemptStatus, AttemptPhase, DeliveryStatus, RunStatus, Phase, Run, Controls, Handoff, Attempt,
  Receipt, Db,
}
use research_ops_automation.Runs.Rows.{run_is, controls_are}
use research_ops_automation.Delivery.Rows.{
  handoff_is, is_alert, is_queued, is_sending, is_accepted, is_uncertain, is_data_started,
  receipt_is,
}
use research_ops_automation.Delivery.Timeline.{record_delivery_event}
use research_ops_automation.Queue.Dispatch.{is_awaiting}
use research_ops_automation.Queue.Report.{Outcome}
use research_ops_automation.Queue.Finish.{finish}
use research_ops_automation.Queue.Receipts.{receipt_id}

abbrev pub interrupted : Attempt → Outcome
interrupted a = record {
  status = if is_data_started a.phase then AttemptStatus.uncertain else AttemptStatus.failed;
  error = some "Dispatcher exited before completion";
  server_reply = none;
  error_code = none;
  retryable = false;
  diagnostics = none;
}

-- os.kill(pid, 0) raises ProcessLookupError; a row without a pid is skipped
abbrev pub owner_gone : (ℕ → Bool) → Attempt → Bool
owner_gone gone a = elim a.claim_pid [ none ↦ false | some pid ↦ gone pid ]

-- claim_token of a row that is being sent, which claim has set
abbrev pub token_text : Option String → String
token_text none = ""
token_text (some t) = t

-- a message of the run, but no alert
unfoldable pub message_for_run : String → List Handoff → Attempt → Bool
message_for_run run_id handoffs a = elim a.handoff_id [
  | none ↦ false
  | some h ↦
      exists (λ (x : Handoff). handoff_is h x && x.run_id == run_id && not (is_alert x)) handoffs
]

abbrev pub cancelled_run : ℕ → Run → Run
cancelled_run now r = record r {
  status = RunStatus.cancelled;
  phase = Phase.finalize;
  finished_at = some now;
  error_message = some "Cancelled before SMTP submission";
}

abbrev pub cancelled_attempt : ℕ → Attempt → Attempt
cancelled_attempt now a = record a {
  status = AttemptStatus.failed;
  phase = AttemptPhase.finished;
  error = some "Cancelled before SMTP submission";
  updated_at = now;
}

-- status IN ('prepared','published','queued')
unfoldable pub undelivered : Handoff → Bool
undelivered h = elim h.status [
  | DeliveryStatus.prepared ↦ true
  | DeliveryStatus.published ↦ true
  | DeliveryStatus.queued ↦ true
  | _ ↦ false
]

abbrev pub cancelled_handoff : Handoff → Handoff
cancelled_handoff h = record h {
  status = DeliveryStatus.failed;
  decision_reason = some "Cancelled before SMTP submission";
}

abbrev uncertain_handoff : Receipt → Handoff → Handoff
uncertain_handoff r h = record h {
  status = DeliveryStatus.uncertain;
  external_delivery_status = some DeliveryStatus.uncertain;
  external_receipt_id = some r.external_receipt_id;
  receipt_sha256 = some r.receipt_sha256;
  acknowledged_at = some r.occurred_at;
  receipt_trust_status = some "verified_local_smtp";
  decision_reason = some "Retry cancelled; earlier SMTP delivery remains uncertain";
}

abbrev uncertain_run : Run → Run
uncertain_run r = record r {
  status = RunStatus.needs_attention;
  error_message = some "Retry cancelled; earlier SMTP delivery remains uncertain";
}

-- an uncertain message of the run that has its receipt, on a handoff that was never accepted
unfoldable pub uncertain_message : String → Db → Attempt → Bool
unfolding message_for_run
uncertain_message run_id db a =
    message_for_run run_id db.handoffs a
    && is_uncertain a.status
    && exists (receipt_is (receipt_id a.job_id)) db.receipts
    && (elim a.handoff_id [
      | none ↦ false
      | some h ↦
          not (
            exists (λ (b : Attempt). opt_str_eq b.handoff_id h && is_accepted b.status) db.attempts)
    ])

-- ORDER BY a.attempt_number DESC LIMIT 1
unfoldable pub newest : (Attempt → Bool) → List Attempt → Option Attempt
newest p [] = none
newest p (a ∷ as') =
    let best = newest p as' in
    if p a
    then some
        (elim best [ none ↦ a | some b ↦ if ltb a.attempt_number b.attempt_number then b else a ])
    else best

unfoldable pub restore_uncertain : String → Db → Db
unfolding newest uncertain_message
restore_uncertain run_id db = elim (newest (uncertain_message run_id db) db.attempts) [
  | none ↦ db
  | some a ↦ (elim (find (receipt_is (receipt_id a.job_id)) db.receipts) [
    | none ↦ db
    | some r ↦ record db {
      handoffs = update_where (handoff_is r.handoff_id) (uncertain_handoff r) db.handoffs;
      runs = update_where (run_is run_id) uncertain_run db.runs;
    }
  ])
]

abbrev pub cancel_requested_for : String → Db → Bool
cancel_requested_for run_id db =
    exists (λ (c : Controls). controls_are run_id c && c.cancel_requested) db.controls

abbrev pub cancel_target : String → Run → Bool
cancel_target run_id r = run_is run_id r && is_awaiting r

module _ (host : Host) where
  -- The jobs that were recovered, or the error that ended the loop; each finish is a transaction of
  -- its own, so what was finished before an error stays.
  unfoldable pub recover_rows : ℕ → (ℕ → Bool) → List Attempt → Db → Result (List String) × Db
  recover_rows now gone [] db = (ok [], db)
  recover_rows now gone (a ∷ rows) db =
      let skip = recover_rows now gone rows db in
      if not (owner_gone gone a)
      then skip
      else elim (finish host now "" a.job_id (token_text a.claim_token) (interrupted a) none db) [
        | err e ↦ (err e, db)
        | ok db' ↦
            let (r, db'') = recover_rows now gone rows db' in
            ((r >>= λ jobs. ok (a.job_id ∷ jobs)), db'')
      ]

  unfoldable pub recover_interrupted : ℕ → (ℕ → Bool) → Db → Result (List String) × Db
  recover_interrupted now gone db =
      recover_rows now gone (select (λ a. is_sending a.status) db.attempts) db

  unfoldable pub record_cancelled : ℕ → List Attempt → Db → Db
  record_cancelled now [] db = db
  record_cancelled now (a ∷ rows) db =
      record_cancelled now rows
        (record_delivery_event host a.job_id "run_step_finished" now (some "cancelled") db)

  -- True exactly if the run was cancelled.
  unfoldable pub cancel_pending_for_run : ℕ → String → Db → Bool × Db
  unfolding message_for_run
  cancel_pending_for_run now run_id db =
      let for_run = message_for_run run_id db.handoffs in
      let waiting = λ (a : Attempt). for_run a && is_queued a.status in
      if exists (λ (a : Attempt). for_run a && is_sending a.status) db.attempts
      then (false, db)
      else if not (exists (cancel_target run_id) db.runs && cancel_requested_for run_id db)
      then (false, db)
      else let db₁ = record db {
        runs = update_where (cancel_target run_id) (cancelled_run now) db.runs;
        attempts = update_where waiting (cancelled_attempt now) db.attempts;
        handoffs =
            update_where (λ (h : Handoff). h.run_id == run_id && not (is_alert h) && undelivered h)
              cancelled_handoff db.handoffs;
      } in
        (true, record_cancelled now (select waiting db.attempts) (restore_uncertain run_id db₁))
