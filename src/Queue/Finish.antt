-- ===== src/Queue/Finish.antt =====
-- SmtpQueue.finish: the durable outcome of an attempt and all that follows from it.

use research_ops_automation.Base.{
  ℕ, String, not, Option, none, some, find, update_where, Result, ok, delivery, crash, ◌>>=◌, ◌>>◌,
  guard, require, if◌then◌else◌,
}
use research_ops_automation.Base.Host.{Host}
use research_ops_automation.Domain.{Handoff, Attempt, Db}
use research_ops_automation.Delivery.Rows.{handoff_is, is_alert, job_is}
use research_ops_automation.Queue.Report.{
  Outcome, RetryPolicy, is_result, finishable, finished_attempt, check_finish,
}
use research_ops_automation.Queue.Receipts.{
  receipt_for, received, settle_message, finish_event, insert_receipt,
}
use research_ops_automation.Queue.AutoRetry.{auto_retry}

module _ (host : Host) where
  -- what follows for the handoff of the attempt
  unfoldable pub finish_handoff :
      ℕ → String → String → Outcome → Attempt → Option RetryPolicy → Handoff → Db → Result Db
  finish_handoff now fresh job_id o row policy h db = do
    let receipt = receipt_for host now job_id o row h
    db₁ ← insert_receipt host receipt db
    let db₂ = record db₁ {
      handoffs = update_where (handoff_is h.handoff_id) (received host o receipt) db₁.handoffs;
    }
    let db₃ = if is_alert h then db₂ else settle_message host now job_id o row h db₂
    auto_retry host now fresh job_id o row h policy (finish_event host now job_id o row h db₃)

  -- The tables after finish, whose answer is the receipt that it has stored.
  unfoldable pub finish :
      ℕ → String → String → String → Outcome → Option RetryPolicy → Db → Result Db
  finish now fresh job_id token o policy db = do
    guard (not (is_result o.status)) (delivery "Invalid SMTP result")
    row ← require (find (job_is job_id) db.attempts) (delivery "SMTP dispatch ownership lost")
    check_finish token o row
    let db₁ = record db {
      attempts = update_where (finishable job_id token) (finished_attempt now o) db.attempts;
    }
    elim row.handoff_id [
      | none ↦ ok db₁
      | some id ↦ require (find (handoff_is id) db₁.handoffs) crash >>= λ h.
          finish_handoff now fresh job_id o row policy h db₁
    ]
