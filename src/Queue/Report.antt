-- ===== src/Queue/Report.antt =====
-- What a sender reports to SmtpQueue.finish, and the checks on the attempt that it reports on.

use research_ops_automation.Base.{
  ℕ, String, Bool, true, false, not, ◌&&◌, ◌||◌, ◌==◌, Option, none, some, opt_str_eq, is_some,
  Result, delivery, ◌>>◌, guard, if◌then◌else◌,
}
use research_ops_automation.Base.Json.{Json, get, truth}
use research_ops_automation.Domain.{AttemptStatus, AttemptPhase, Attempt}
use research_ops_automation.Delivery.Rows.{job_is, is_sending, is_accepted, is_data_started}

-- the arguments of finish
pub record Outcome : Type 0 where
  pub status : AttemptStatus
  pub error : Option String
  pub server_reply : Option String
  pub error_code : Option String
  pub retryable : Bool
  pub diagnostics : Option Json

pub record RetryPolicy : Type 0 where
  pub smtp_auto_retry : Bool
  pub smtp_max_attempts : ℕ
  pub smtp_retry_base_seconds : ℕ
  pub smtp_retry_expiry_seconds : ℕ

-- ("smtp_accepted", "connection_ok", "failed", "uncertain")
unfoldable pub is_result : AttemptStatus → Bool
is_result AttemptStatus.queued = false
is_result AttemptStatus.sending = false
is_result _ = true

unfoldable pub is_failed : AttemptStatus → Bool
is_failed AttemptStatus.failed = true
is_failed _ = false

unfoldable pub is_connection_ok : AttemptStatus → Bool
is_connection_ok AttemptStatus.connection_ok = true
is_connection_ok _ = false

-- the text of the status
unfoldable pub status_text : AttemptStatus → String
status_text AttemptStatus.queued = "queued"
status_text AttemptStatus.sending = "sending"
status_text AttemptStatus.smtp_accepted = "smtp_accepted"
status_text AttemptStatus.connection_ok = "connection_ok"
status_text AttemptStatus.failed = "failed"
status_text AttemptStatus.uncertain = "uncertain"

abbrev pub or_text : Option String → String → String
or_text none d = d
or_text (some s) d = if s == "" then d else s

abbrev pub or_json : Option Json → Option Json → Option Json
or_json none old = old
or_json (some j) old = some j

-- WHERE job_id=? AND claim_token=?
abbrev pub finishable : String → String → Attempt → Bool
finishable job_id token a = job_is job_id a && opt_str_eq a.claim_token token

abbrev pub finished_attempt : ℕ → Outcome → Attempt → Attempt
finished_attempt now o a = record a {
  status = o.status;
  phase = AttemptPhase.finished;
  updated_at = now;
  error = o.error;
  server_reply = o.server_reply;
  error_code = o.error_code;
  retryable = o.retryable && is_failed o.status;
  diagnostics_json = or_json o.diagnostics a.diagnostics_json;
}

-- the checks on the row that is finished
unfoldable pub check_finish : String → Outcome → Attempt → Result (Unit {0})
unfolding truth is_connection_ok
check_finish token o row = do
  guard (not (is_sending row.status) || not (opt_str_eq row.claim_token token))
      (delivery "SMTP dispatch ownership lost")
  guard (is_accepted o.status && not (is_data_started row.phase))
      (delivery "SMTP acceptance requires a completed DATA exchange")
  guard
      (is_connection_ok o.status
        && (is_some row.handoff_id || not (truth (get "connection_test" row.envelope_json))))
      (delivery "Connection evidence requires a queued diagnostic")
