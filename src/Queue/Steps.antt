-- ===== src/Queue/Steps.antt =====
-- The operations of the SMTP queue as steps of one database.
use research_ops_automation.Base.{
  ℕ, String, Bool, false, Option, List, [], ◌∷◌, ◌==◌, ◌&&◌, is_ok, if◌then◌else◌, ◌+◌,
}
use research_ops_automation.Base.Host.{Host}
use research_ops_automation.Base.Json.{Json}
use research_ops_automation.Domain.{Db}
use research_ops_automation.Runs.Steps.{settle, settle_with}
use research_ops_automation.Queue.Insert.{Message, enqueue}
use research_ops_automation.Queue.Dispatch.{claim, start_data, record_stage}
use research_ops_automation.Queue.Retry.{RetryCall, retry}
use research_ops_automation.Queue.Report.{Outcome, RetryPolicy}
use research_ops_automation.Queue.Finish.{finish}
use research_ops_automation.Queue.Recovery.{recover_interrupted, cancel_pending_for_run}

-- A call with its arguments; the first number of a call is the clock's value, and a text `fresh`
-- is the id that a new attempt would get.
pub data Op : Type 0 where
  enqueue_message : ℕ → Message → Op
  claim_job : ℕ → String → ℕ → String → Bool → Op
  start : ℕ → String → String → Bool → Op
  stage_recorded : ℕ → String → String → Json → Op
  finish_job : ℕ → String → String → String → Outcome → Option RetryPolicy → Op
  retry_job : ℕ → String → String → RetryCall → Op
  recover : ℕ → (ℕ → Bool) → Op
  cancel_run : ℕ → String → Op

module _ (host : Host) where
  unfoldable pub step : Op → Db → Db
  step (enqueue_message now m) db = settle db (enqueue host now m db)
  step (claim_job now token pid job include_future) db =
      (claim host now token pid job include_future db).1
  step (start now job token production) db = settle db (start_data host now job token production db)
  step (stage_recorded now job token diagnostics) db =
      settle db (record_stage now job token diagnostics db)
  step (finish_job now fresh job token o policy) db =
      settle db (finish host now fresh job token o policy db)
  step (retry_job now fresh job call) db = settle_with db (retry host now fresh job call db)
  step (recover now gone) db = (recover_interrupted host now gone db).1
  step (cancel_run now run_id) db = (cancel_pending_for_run host now run_id db).1

  unfoldable pub steps : List Op → Db → Db
  steps [] db = db
  steps (op ∷ ops) db = steps ops (step op db)

  -- DATA is started on the job by the operation
  unfoldable pub did_start : Op → Db → String → Bool
  did_start (start now job token production) db k =
      job == k && is_ok (start_data host now job token production db)
  did_start _ db k = false

  -- the number of times that DATA is started on the job
  unfoldable pub data_starts : String → List Op → Db → ℕ
  data_starts k [] db = 0
  data_starts k (op ∷ ops) db =
      (if did_start op db k then 1 else 0) + data_starts k ops (step op db)
