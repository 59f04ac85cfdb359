-- ===== src/Scheduler/Examples.antt =====
-- The scheduler's theorems and definitions on small inputs.
use research_ops_automation.Base.{
  ℕ, String, Bool, true, false, ◌≡◌, refl, ◌+◌, ◌*◌, ◌≤◌, ◌<◌, Option, none, some, List, [], ◌∷◌,
  find, exists, arith, ok, err, ◌>>=◌, ◌>>◌, is_ok, Result, validation,
}
use research_ops_automation.Base.Json.{str, obj, end, field}
use research_ops_automation.Samples.{host, db, task}
use research_ops_automation.Domain.{RunStatus, Task, TaskVersion}
use research_ops_automation.Scheduler.Cron.{CronField, CronExpression, cron_expression}
use research_ops_automation.Scheduler.Occurrence.{
  occurrence_between, cron_matches, day_matches, day_of_month, month_of, day_of_week, hour_length,
  day_length,
}
use research_ops_automation.Scheduler.Days.{IsBounded}
use research_ops_automation.Scheduler.Search.{Beats, IsBest}
use research_ops_automation.Scheduler.Exact.{Occurrence, occurrence_between-IsBest}
use research_ops_automation.Scheduler.Bounds.{
  IsInRanges, IsInRanges-IsBounded, cron_expression-IsInRanges,
}
use research_ops_automation.Scheduler.Tick.{
  Store, Format, Policy, Decision, is_scheduled, is_waiting, is_skip, is_catch_up, tables_of, waits,
  occurrence_is, watermark_is,
}
use research_ops_automation.Scheduler.Decide.{
  Tick, tick_task, search_start, previous_of, catalog_state, still_active,
}
use research_ops_automation.Delivery.Rows.{task_is}
use research_ops_automation.Ownership.{require_catalog_active, require_catalog_references}
use research_ops_automation.Scheduler.Watermarks.{reached, reached-tick_task}
use research_ops_automation.Scheduler.Due.{enqueued_due}
use research_ops_automation.Scheduler.Served.{QueuesFor, Due, due_queued}

abbrev every : List ℕ → String → CronField
every values text = record { field_str = text; allowed_values = values }

-- nine and eighteen o'clock on Mondays and on the first of a month
abbrev weekly : CronExpression
weekly = record {
  expr = "0 9,18 1 * 1";
  minute = every (0 ∷ []) "0";
  hour = every (9 ∷ 18 ∷ []) "9,18";
  dom = every (1 ∷ []) "1";
  month = every (1 ∷ 2 ∷ 3 ∷ 4 ∷ 5 ∷ 6 ∷ 7 ∷ 8 ∷ 9 ∷ 10 ∷ 11 ∷ 12 ∷ []) "*";
  dow = every (1 ∷ []) "1";
}

parsed : cron_expression " 0 9,18 1 * 1 " ≡ ok weekly
unfolding cron_expression exists
parsed = refl

refused : is_ok (cron_expression "0 24 * * *") ≡ false
unfolding cron_expression
refused = refl

-- 29 February 2024, a Thursday
leap_day : (month_of 19782 ≡ 2) × (day_of_month 19782 ≡ 29) × (day_of_week 19782 ≡ 4)
unfolding month_of day_of_month day_of_week
leap_day = (refl, refl, refl)

cron_expression-IsInRanges_example : IsInRanges weekly
cron_expression-IsInRanges_example = cron_expression-IsInRanges " 0 9,18 1 * 1 " weekly parsed

weekly-IsBounded : IsBounded weekly
weekly-IsBounded = IsInRanges-IsBounded weekly cron_expression-IsInRanges_example

-- Monday, 5 January 2026, at noon and at midnight before it, in UTC
abbrev noon : ℕ
noon = 20458 * day_length + 12 * hour_length

abbrev midnight : ℕ
midnight = 20458 * day_length

latest_found :
    occurrence_between weekly midnight noon true ≡ some (20458 * day_length + 9 * hour_length)
unfolding occurrence_between day_matches exists month_of day_of_month day_of_week
latest_found = refl

occurrence_between-IsBest_example :
    IsBest true (Occurrence weekly midnight noon) (occurrence_between weekly midnight noon true)
occurrence_between-IsBest_example =
    occurrence_between-IsBest true midnight noon weekly weekly-IsBounded

abbrev formats : Format
formats = record { iso = λ n. "t"; iso_seoul = λ n. "t"; dashed = λ n. "d"; dotted = λ n. "d" }

abbrev tick : Tick
tick = record { current = noon; wall = noon; fresh_id = λ s. "run-2" }

abbrev task_version : TaskVersion
task_version = record {
  task_id = "task-1";
  version_hash = "v1";
  definition_json =
      obj (field "id" (str "task-1") (field "runner" (obj (field "type" (str "fake") end)) end));
}

abbrev ready : Task
ready = record task { active_version_hash = some "v1"; enabled = true }

abbrev store : Store
store = record {
  accounts = record {
    users = [];
    sessions = [];
    login_attempts = [];
    bootstrap = none;
    user_tasks = [];
    installation_owner = none;
    tables = record (db RunStatus.succeeded []) { tasks = ready ∷ [] };
  };
  watermarks = record { task_id = "task-1"; evaluated_through = midnight } ∷ [];
  plans = [];
}

abbrev after_tick : Result (Decision × Store) → Store
after_tick (ok (decision, s)) = s
after_tick (err raised) = store

abbrev ticked : Result (Decision × Store)
ticked = tick_task host formats tick "task-1" task_version weekly Policy.enqueue_once store

queued :
    ticked
    ≡ ok (Decision.enqueued "run-2" (20458 * day_length + 9 * hour_length), after_tick ticked)
unfolding tick_task find day_matches exists month_of day_of_month day_of_week is_scheduled
    research_ops_automation.Base.select is_waiting
queued = refl

enqueued_due_example :
    Occurrence weekly
      (search_start Policy.enqueue_once noon
        (previous_of noon (find (watermark_is "task-1") store.watermarks)))
      noon
      (20458 * day_length + 9 * hour_length)
    × (exists (waits "task-1") (tables_of store).runs ≡ false)
    × (exists (occurrence_is "task-1" (20458 * day_length + 9 * hour_length)) (tables_of store).runs
        ≡ false)
enqueued_due_example =
    enqueued_due host formats tick "task-1" "run-2" _ task_version weekly Policy.enqueue_once store
      (after_tick ticked) weekly-IsBounded queued

reached-tick_task_example :
    reached "task-1" store.watermarks ≤ reached "task-1" (after_tick ticked).watermarks
reached-tick_task_example =
    reached-tick_task host formats tick "task-1" "task-1" task_version weekly Policy.enqueue_once
      store (after_tick ticked) _ weekly-IsBounded queued

accepted :
    catalog_state (
      require_catalog_active "task" "task-1" store.accounts
      >> (require_catalog_references none task_version.definition_json store.accounts >>= λ owner.
          ok tt))
    ≡ ok true
unfolding catalog_state require_catalog_active require_catalog_references exists find
accepted = refl

active : still_active task_version (find (task_is "task-1") (tables_of store).tasks) ≡ true
unfolding still_active find
active = refl

due :
    Due host formats tick "task-1" weekly Policy.enqueue_once store
      (20458 * day_length + 9 * hour_length)
unfolding day_matches exists month_of day_of_month day_of_week find cron_matches is_skip
due = (refl, refl, omega arith, omega arith)

idle : exists (waits "task-1") (tables_of store).runs ≡ false
unfolding exists is_waiting
idle = refl

unscheduled :
    (s : ℕ) → midnight < s → exists (occurrence_is "task-1" s) (tables_of store).runs ≡ false
unfolding exists is_scheduled
unscheduled s h = ground arith

due_queued_example :
    (time : ℕ) × QueuesFor host formats tick "task-1" task_version store time
      (Decision.enqueued "run-2" (20458 * day_length + 9 * hour_length))
      (after_tick ticked)
    × Due host formats tick "task-1" weekly Policy.enqueue_once store time
    × ((s : ℕ)
        → Due host formats tick "task-1" weekly Policy.enqueue_once store s
        → Beats true time s)
unfolding find is_skip is_catch_up
due_queued_example =
    due_queued host formats tick "task-1" task_version weekly Policy.enqueue_once
      (20458 * day_length + 9 * hour_length) store (after_tick ticked) _ weekly-IsBounded queued
      accepted active (omega arith) due idle (λ s d. unscheduled s d.2)
