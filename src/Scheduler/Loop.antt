-- ===== src/Scheduler/Loop.antt =====
-- scheduler.py: schedule_tick.
use research_ops_automation.Base.{
  ℕ, ◌-◌, ◌%◌, String, Bool, true, false, not, ◌&&◌, ◌==◌, Option, none, some, List, [], ◌∷◌, find,
  exists, select, str_lt, Result, ok, err, Error, ◌>>=◌, ◌>>◌, guard, validation, crash,
  if◌then◌else◌,
}
use research_ops_automation.Base.Host.{Host}
use research_ops_automation.Base.Json.{Json, str, obj, arr, end, Fields, get, member}
use research_ops_automation.Domain.{Task, TaskVersion}
use research_ops_automation.Delivery.Rows.{version_is, deleted_item}
use research_ops_automation.Scheduler.Cron.{CronExpression, cron_expression}
use research_ops_automation.Scheduler.Occurrence.{minute_length}
use research_ops_automation.Scheduler.Tick.{Store, Format, Policy, Decision, tables_of}
use research_ops_automation.Scheduler.Decide.{Tick, tick_task}

-- a list or an object has no hash, so the test for a member of the set raises TypeError
unfoldable pub policy_of : Option Json → Result Policy
policy_of none = ok Policy.enqueue_once
policy_of (some (str s)) =
    if s == "skip"
    then ok Policy.skip
    else if s == "enqueue_once"
    then ok Policy.enqueue_once
    else if s == "catch_up"
    then ok Policy.catch_up
    else err (validation "Unsupported misfire_policy")
policy_of (some (arr items)) = err crash
policy_of (some (obj fields)) = err crash
policy_of _ = err (validation "Unsupported misfire_policy")

-- config["cron"], which KeyError, as ValidationError, makes an error of the task
unfoldable pub cron_of : Option Json → Result CronExpression
unfolding cron_expression
cron_of (some (str expr)) = cron_expression expr
cron_of _ = err (validation "Cron requires minute hour day-of-month month day-of-week")

unfoldable pub is_seoul : Option Json → Bool
is_seoul none = true
is_seoul (some (str s)) = s == "Asia/Seoul"
is_seoul _ = false

-- what the tick reports of a task: its decision, or the reason that it failed
pub data Report : Type 0 where
  decided : Decision → Report
  failed : String → Report
  unscheduled disabled : Report

-- `except (ValidationError, KeyError)` of one task
unfoldable pub report_of : Store → Result (Decision × Store) → Result (Report × Store)
report_of store (ok (decision, after)) = ok (Report.decided decision, after)
report_of store (err (Error.validation reason)) = ok (Report.failed reason, store)
report_of store (err raised) = err raised

unfoldable pub schedule_of : Option TaskVersion → Option (TaskVersion × Fields)
schedule_of none = none
schedule_of (some version) = scheduled (get "schedule" version.definition_json)
  where
    scheduled : Option Json → Option (TaskVersion × Fields)
    scheduled (some (obj end)) = none
    scheduled (some (obj config)) = some (version, config)
    scheduled _ = none

-- get_active_version
unfoldable pub active_version : Task → Store → Option TaskVersion
active_version task store = by_hash task.active_version_hash
  where
    by_hash : Option String → Option TaskVersion
    by_hash none = none
    by_hash (some hash) =
        if hash == "" then none else find (version_is hash) (tables_of store).versions

-- ORDER BY task_id
unfoldable pub insert_task : Task → List Task → List Task
insert_task t [] = t ∷ []
insert_task t (u ∷ us) =
    let rest = insert_task t us in if str_lt u.task_id t.task_id then u ∷ rest else t ∷ u ∷ us

unfoldable pub order_tasks : List Task → List Task
unfolding insert_task
order_tasks [] = []
order_tasks (t ∷ ts) = insert_task t (order_tasks ts)

-- list_tasks(enabled_only=True)
unfoldable pub enabled_tasks : Store → List Task
unfolding order_tasks
enabled_tasks store = order_tasks (
    select
      (λ (t : Task).
        t.enabled && not (exists (deleted_item "task" t.task_id) (tables_of store).catalog))
      (tables_of store).tasks)

module _ (host : Host) (format : Format) (tick : Tick) where
  unfoldable pub tick_configured : String → TaskVersion → Fields → Store → Result (Decision × Store)
  unfolding is_seoul cron_of policy_of tick_task member
  tick_configured task_id version config store =
      guard (not (is_seoul (member "timezone" config)))
        (validation "schedule.timezone must be Asia/Seoul")
      >> (cron_of (member "cron" config) >>= λ cron.
          policy_of (member "misfire_policy" config) >>= λ policy.
          tick_task host format tick task_id version cron policy store)

  unfoldable pub tick_one : Task → Store → Result (Report × Store)
  unfolding active_version schedule_of tick_configured report_of get
  tick_one task store = configured (schedule_of (active_version task store))
    where
      configured : Option (TaskVersion × Fields) → Result (Report × Store)
      configured none = ok (Report.unscheduled, store)
      configured (some (version, config)) =
          report_of store (tick_configured task.task_id version config store)

  -- the loop over the tasks; each task is a transaction of its own
  unfoldable pub tick_tasks : List Task → Store → Store × Result (List (String × Report))
  unfolding tick_one
  tick_tasks [] store = (store, ok [])
  tick_tasks (task ∷ tasks) store = elim (tick_one task store) [
    | err raised ↦ (store, err raised)
    | ok (report, after) ↦
        let (last, reports) = tick_tasks tasks after in
        (last, reports >>= λ rest. ok ((task.task_id, report) ∷ rest))
  ]

-- the instant without its seconds
abbrev pub tick_at : ℕ → ℕ → (String → String) → Tick
tick_at now wall fresh_id = record {
  current = now - now % minute_length;
  wall = wall;
  fresh_id = fresh_id;
}

-- schedule_tick, where `enabled` is the installation's switch and `now` the instant given
unfoldable pub schedule_tick :
    Host
    → Format
    → (String → String)
    → ℕ
    → ℕ
    → Bool
    → Store
    → Store × Result (List (String × Report))
unfolding tick_tasks enabled_tasks
schedule_tick host format fresh_id now wall enabled store =
    if enabled
    then tick_tasks host format (tick_at now wall fresh_id) (enabled_tasks store) store
    else (store, ok (("", Report.disabled) ∷ []))
