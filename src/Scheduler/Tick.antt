-- ===== src/Scheduler/Tick.antt =====
-- scheduler.py: the tick, which queues at most one run of each task.
use research_ops_automation.Base.{
  ℕ, String, Bool, true, false, ◌&&◌, ◌||◌, ◌==◌, eqb, leb, Option, none, some, List, [], ◌∷◌, ◌++◌,
  exists, update_where, Result, ok, err, ◌>>=◌, integrity, if◌then◌else◌,
}
use research_ops_automation.Base.Host.{Host}
use research_ops_automation.Base.Json.{Json, str, obj, end, field, Fields, get}
use research_ops_automation.Domain.{RunStatus, Phase, TriggerType, Run, Controls, TaskVersion, Db}
use research_ops_automation.Runs.Rows.{run_is}
use research_ops_automation.Auth.Rows.{Accounts}
use research_ops_automation.Plan.Stages.{resolve_task_stages}
use research_ops_automation.Plan.Build.{build_execution_plan, encode_execution_plan}
use research_ops_automation.Base.Json.{null}
use research_ops_automation.Scheduler.Cron.{CronExpression}
use research_ops_automation.Scheduler.Occurrence.{seoul, day_of}

-- a row of scheduler_watermarks
pub record Watermark : Type 0 where
  pub task_id : String
  pub evaluated_through : ℕ

-- a row of run_execution_plans
pub record PlanRow : Type 0 where
  pub run_id : String
  pub plan_json : String
  pub plan_sha256 : String

-- the database as the scheduler sees it
pub record Store : Type 0 where
  pub accounts : Accounts
  pub watermarks : List Watermark
  pub plans : List PlanRow

abbrev pub tables_of : Store → Db
tables_of store = store.accounts.tables

abbrev pub with_tables : Db → Store → Store
with_tables db store = record store { accounts = record store.accounts { tables = db } }

-- what the code takes from Python's library: isoformat() of an instant in UTC and in Seoul, and
-- strftime of a Seoul day
pub record Format : Type 0 where
  pub iso : ℕ → String
  pub iso_seoul : ℕ → String
  pub dashed : ℕ → String
  pub dotted : ℕ → String

pub data Policy : Type 0 where
  skip enqueue_once catch_up : Policy

unfoldable pub is_skip : Policy → Bool
is_skip Policy.skip = true
is_skip _ = false

unfoldable pub is_catch_up : Policy → Bool
is_catch_up Policy.catch_up = true
is_catch_up _ = false

-- what the tick decides for a task
pub data Decision : Type 0 where
  skipped : String → Decision
  not_due : Decision
  occurred : String → Decision
  coalesced : String → ℕ → Decision
  enqueued : String → ℕ → Decision

unfoldable pub is_scheduled : TriggerType → Bool
is_scheduled TriggerType.schedule = true
is_scheduled _ = false

unfoldable pub is_waiting : RunStatus → Bool
is_waiting RunStatus.queued = true
is_waiting _ = false

abbrev pub occurrence_is : String → ℕ → Run → Bool
occurrence_is task_id time r =
    r.task_id == task_id && is_scheduled r.trigger_type && eqb r.scheduled_for time

abbrev pub waits : String → Run → Bool
waits task_id r = r.task_id == task_id && is_waiting r.status

-- ORDER BY created_at LIMIT 1
unfoldable pub earliest : List Run → Option Run
earliest [] = none
earliest (r ∷ rs) = sooner (earliest rs)
  where
    sooner : Option Run → Option Run
    sooner none = some r
    sooner (some q) = if leb r.created_at q.created_at then some r else some q

abbrev pub watermark_is : String → Watermark → Bool
watermark_is task_id w = w.task_id == task_id

-- INSERT … ON CONFLICT DO UPDATE
unfoldable pub set_watermark : String → ℕ → Store → Store
set_watermark task_id time store =
    if exists (watermark_is task_id) store.watermarks
    then record store {
      watermarks =
          update_where (watermark_is task_id)
            (λ (w : Watermark). record w { evaluated_through = time }) store.watermarks;
    }
    else record store {
      watermarks = store.watermarks ++ record { task_id = task_id; evaluated_through = time } ∷ [];
    }

-- PRIMARY KEY of scheduled_runs and idx_schedule_occurrence
unfoldable pub insert_run : Run → Store → Result Store
insert_run r store =
    if exists (run_is r.run_id) (tables_of store).runs
      || (is_scheduled r.trigger_type
          && exists (occurrence_is r.task_id r.scheduled_for) (tables_of store).runs)
    then err integrity
    else ok
        (with_tables (record (tables_of store) { runs = (tables_of store).runs ++ r ∷ [] }) store)

abbrev pub default_controls : String → Controls
default_controls run_id = record {
  run_id = run_id;
  cancel_requested = false;
  force_dry_run = false;
  composition_revision = 1;
  child_cleanup_verified = false;
}

unfoldable pub insert_controls : String → Store → Store
insert_controls run_id store =
    with_tables
      (record (tables_of store) {
        controls = (tables_of store).controls ++ default_controls run_id ∷ [];
      })
      store

-- version.definition.runner
unfoldable pub runner_of : Option Json → Fields
runner_of (some (obj fields)) = fields
runner_of _ = end

abbrev pub selection_of : String → Json
selection_of version_hash =
    obj (field "kind" (str "task_version") (field "task_version_hash" (str version_hash) end))

unfoldable pub policy_text : Policy → String
policy_text Policy.skip = "skip"
policy_text Policy.enqueue_once = "enqueue_once"
policy_text Policy.catch_up = "catch_up"

module _ (host : Host) (format : Format) where
  -- insert_execution_plan
  unfoldable pub insert_execution_plan : String → Json → Store → Result Store
  unfolding encode_execution_plan
  insert_execution_plan run_id plan store = encode_execution_plan host plan >>= λ (raw, digest).
      if exists (λ (p : PlanRow). p.run_id == run_id) store.plans
      then err integrity
      else ok (record store {
        plans =
            store.plans ++ record { run_id = run_id; plan_json = raw; plan_sha256 = digest } ∷ [];
      })

  abbrev pub scheduled_run : String → String → TaskVersion → ℕ → ℕ → Run
  scheduled_run run_id task_id version time wall = record {
    run_id = run_id;
    task_id = task_id;
    task_version_hash = version.version_hash;
    scheduled_for = time;
    timezone = "Asia/Seoul";
    local_date = format.dashed (day_of (seoul time));
    local_date_display = format.dotted (day_of (seoul time));
    trigger_type = TriggerType.schedule;
    status = RunStatus.queued;
    phase = Phase.queued;
    attempt = 0;
    workspace_generation = 1;
    parent_run_id = none;
    created_at = wall;
    started_at = none;
    finished_at = none;
    last_heartbeat_at = none;
    last_progress_at = none;
    error_message = none;
  }

  -- the run, its controls and its plan
  unfoldable pub enqueue_run : Run → TaskVersion → Store → Result Store
  unfolding insert_run insert_controls resolve_task_stages runner_of build_execution_plan
      insert_execution_plan get
  enqueue_run r version store = insert_run r store >>= λ queued.
      resolve_task_stages (runner_of (get "runner" version.definition_json)) >>= λ stages.
      build_execution_plan stages "full" null (selection_of version.version_hash) null >>= λ plan.
      insert_execution_plan r.run_id plan (insert_controls r.run_id queued)

  abbrev pub decision_status : Decision → String
  decision_status (Decision.skipped reason) = "skipped"
  decision_status Decision.not_due = "not_due"
  decision_status (Decision.occurred run_id) = "skipped"
  decision_status (Decision.coalesced run_id time) = "coalesced"
  decision_status (Decision.enqueued run_id time) = "enqueued"

  -- what result.update adds to a result
  abbrev pub decision_fields : Decision → CronExpression → Fields
  decision_fields (Decision.skipped reason) cron = field "reason" (str reason) end
  decision_fields Decision.not_due cron = end
  decision_fields (Decision.occurred run_id) cron =
      field "reason" (str "already_scheduled") (field "existing_run_id" (str run_id) end)
  decision_fields (Decision.coalesced run_id time) cron =
      field "reason" (str "task_already_active_in_status_queued")
        (field "active_run_id" (str run_id) (field "scheduled_for" (str (format.iso time)) end))
  decision_fields (Decision.enqueued run_id time) cron =
      field "run_id" (str run_id)
        (field "scheduled_for" (str (format.iso time)) (field "cron" (str cron.expr) end))
