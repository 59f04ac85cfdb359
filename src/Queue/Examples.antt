-- ===== src/Queue/Examples.antt =====
-- The queue's theorems at a message of one run, and tests of its operations.

use research_ops_automation.Base.{
  ◌≤◌, true, ◌≡◌, refl, none, some, List, [], ◌∷◌, find, exists, count_where, update_where, All,
  opt_str_eq, arith,
}
use research_ops_automation.Base.Json.{Json, end, field, str}
use research_ops_automation.Domain.{RunStatus, AttemptStatus, AttemptPhase, Attempt, Db}
use research_ops_automation.Runs.Steps.{settle, settled_ok}
use research_ops_automation.Delivery.Rows.{
  job_is, is_queued, is_data_started, is_accepted, is_sending, is_prepared,
}
use research_ops_automation.Queue.Insert.{Message}
use research_ops_automation.Queue.Retry.{RetryCall}
use research_ops_automation.Queue.Report.{Outcome}
use research_ops_automation.Queue.Finish.{finish}
use research_ops_automation.Queue.Moves.{misplaced, live_for, begun}
use research_ops_automation.Queue.Invariant.{IsSound, one_row-IsSound, nothing-IsSound}
use research_ops_automation.Queue.Stages.{Unbegun}
use research_ops_automation.Queue.Steps.{
  Op, enqueue_message, claim_job, start, finish_job, retry_job, step, steps, data_starts,
}
use research_ops_automation.Queue.Promises.{steps-IsSound, accepted_forever}
use research_ops_automation.Queue.Once.{data_once, accepted_started}
use research_ops_automation.Queue.Endings.{finish_lem}
use research_ops_automation.Queue.Dispatch
use research_ops_automation.Queue.Dispatch.{Permission, permission, expired, start_data}
use research_ops_automation.Queue.AutoRetry.{auto_retry}
use research_ops_automation.Queue.Receipts.{insert_receipt}
use research_ops_automation.Queue.Report.{finished_attempt, is_result, check_finish}
use research_ops_automation.Queue.Finish.{finish_handoff}
use research_ops_automation.Delivery.Timeline.{
  record_delivery_event, record_for, run_of, message_of,
}
use research_ops_automation.Samples.{host, attempt, db}

abbrev accepted_attempt : Attempt
accepted_attempt = attempt AttemptStatus.smtp_accepted AttemptPhase.finished

abbrev pub waiting_attempt : Attempt
waiting_attempt = attempt AttemptStatus.queued AttemptPhase.prepared

abbrev pub outcome : AttemptStatus → Outcome
outcome status = record {
  status = status;
  error = none;
  server_reply = none;
  error_code = none;
  retryable = true;
  diagnostics = none;
}

abbrev pub mail : Message
mail = record {
  job_id = "job-2";
  handoff_id = some "handoff-1";
  message_id = "<1@example.org>";
  mime_bytes = "Subject: x";
  envelope = Json.obj end;
  config_revision = "c1";
}

abbrev pub again : RetryCall
again = record {
  request_key = "request-1";
  request = field "reason" (str "please") end;
  config_revision = "c1";
  allow_uncertain = true;
}

-- after the acceptance, everything is tried again
abbrev more : List Op
more =
    enqueue_message 20 mail
    ∷ retry_job 21 "job-3" "job-1" again
    ∷ claim_job 22 "token-2" 78 "job-2" true
    ∷ []

accepted_db-IsSound : IsSound (accepted_attempt ∷ [])
unfolding misplaced is_queued is_data_started
accepted_db-IsSound = one_row-IsSound accepted_attempt refl refl

queued_db-IsSound : IsSound (waiting_attempt ∷ [])
unfolding misplaced is_queued is_data_started
queued_db-IsSound = one_row-IsSound waiting_attempt refl refl

accepted_forever_example :
    (b : Attempt) × (find
        (job_is "job-1")
        (steps host more (db RunStatus.succeeded (accepted_attempt ∷ []))).attempts
      ≡ some b)
    × (b.status ≡ AttemptStatus.smtp_accepted)
    × All
        (λ x. live_for "handoff-1" x ≡ true → x ≡ b)
        (steps host more (db RunStatus.succeeded (accepted_attempt ∷ []))).attempts
unfolding find
accepted_forever_example =
    accepted_forever host "job-1" "handoff-1" accepted_attempt more
      (db RunStatus.succeeded (accepted_attempt ∷ [])) accepted_db-IsSound refl refl refl

-- two senders claim the job, and both start DATA
abbrev race : List Op
race =
    claim_job 22 "token-1" 77 "job-1" true
    ∷ claim_job 23 "token-2" 78 "job-1" true
    ∷ start 24 "job-1" "token-1" true
    ∷ start 25 "job-1" "token-2" true
    ∷ start 26 "job-1" "token-1" true
    ∷ []

data_once_example :
    data_starts host "job-1" race (db RunStatus.awaiting_receipt (waiting_attempt ∷ [])) ≤ 1
data_once_example =
    data_once host "job-1" race (db RunStatus.awaiting_receipt (waiting_attempt ∷ []))
      queued_db-IsSound

steps-IsSound_example : IsSound (steps host more (db RunStatus.succeeded [])).attempts
steps-IsSound_example = steps-IsSound host more (db RunStatus.succeeded []) nothing-IsSound

abbrev pub sending_attempt : AttemptPhase → Attempt
sending_attempt phase = attempt AttemptStatus.sending phase

-- a message that is being sent
abbrev pub sending_db : AttemptPhase → Db
sending_db phase = db RunStatus.awaiting_receipt (sending_attempt phase ∷ [])

-- a test email, which has no handoff
abbrev test_mail : Attempt
test_mail = record waiting_attempt { handoff_id = none }

abbrev test_db : Db
test_db = db RunStatus.awaiting_receipt (test_mail ∷ [])

abbrev delivered : List Op
delivered =
    claim_job 22 "token-1" 77 "job-1" true
    ∷ start 24 "job-1" "token-1" true
    ∷ finish_job 30 "job-9" "job-1" "token-1" (outcome AttemptStatus.smtp_accepted) none
    ∷ []

test_db-IsSound : IsSound (test_mail ∷ [])
unfolding misplaced is_queued is_data_started
test_db-IsSound = one_row-IsSound test_mail refl refl

test_mail-Unbegun : Unbegun "job-1" (test_mail ∷ [])
unfolding find begun is_accepted is_sending is_queued
test_mail-Unbegun b e = ground arith

abbrev delivered_mail : Attempt
delivered_mail =
    finished_attempt 30 (outcome AttemptStatus.smtp_accepted)
      (Dispatch.start 24 (Dispatch.send_by 22 "token-1" 77 test_mail))

accepted_started_example : data_starts host "job-1" delivered test_db ≡ 1
unfolding find steps step finish start_data Dispatch.claim exists is_queued count_where update_where
    is_sending record_delivery_event record_for run_of message_of expired
    Dispatch.require_permission is_prepared check_finish is_result is_accepted is_data_started
accepted_started_example =
    accepted_started host "job-1" delivered test_db delivered_mail test_db-IsSound test_mail-Unbegun
      refl refl

abbrev finished_db : Db
finished_db = settle (sending_db AttemptPhase.data_started) (
    finish host 30 "job-9" "job-1" "token-1" (outcome AttemptStatus.smtp_accepted) none
      (sending_db AttemptPhase.data_started))

finish_lem_example :
    (a : Attempt) × (b : Attempt) × (find
        (job_is "job-1")
        (sending_db AttemptPhase.data_started).attempts
      ≡ some a)
    × (find (job_is "job-1") finished_db.attempts ≡ some b)
    × (a.status ≡ AttemptStatus.sending)
    × (opt_str_eq a.claim_token "token-1" ≡ true)
    × (AttemptStatus.smtp_accepted ≡ AttemptStatus.smtp_accepted
        → a.phase ≡ AttemptPhase.data_started)
    × (b.status ≡ AttemptStatus.smtp_accepted)
    × (b.attempt_number ≡ a.attempt_number)
    × (b.handoff_id ≡ a.handoff_id)
unfolding finish is_result find check_finish is_sending is_accepted is_data_started finish_handoff
    insert_receipt exists auto_retry
finish_lem_example =
    finish_lem host 30 "job-9" "job-1" "token-1" (outcome AttemptStatus.smtp_accepted) none
      (sending_db AttemptPhase.data_started) finished_db
      (settled_ok (sending_db AttemptPhase.data_started)
        (finish host 30 "job-9" "job-1" "token-1" (outcome AttemptStatus.smtp_accepted) none
          (sending_db AttemptPhase.data_started))
        refl)
