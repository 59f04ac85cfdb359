-- ===== src/Scheduler/Decide.antt =====
-- scheduler.py: _tick_task and schedule_tick.
use research_ops_automation.Base.{
  ℕ, String, Bool, true, false, not, ◌&&◌, ◌-◌, leb, Option, none, some, [], ◌∷◌, ◌++◌, find,
  select, opt_str_eq, Result, ok, err, Error, ◌>>=◌, ◌>>◌, if◌then◌else◌,
}
use research_ops_automation.Base.Host.{Host}
use research_ops_automation.Base.Json.{str, obj, end, field, join_fields}
use research_ops_automation.Domain.{Run, Task, TaskVersion, AuditEvent}
use research_ops_automation.Delivery.Rows.{task_is}
use research_ops_automation.Ownership.{require_catalog_active, require_catalog_references}
use research_ops_automation.Scheduler.Cron.{CronExpression}
use research_ops_automation.Scheduler.Occurrence.{occurrence_between, minute_length}
use research_ops_automation.Scheduler.Tick.{
  Watermark, Store, Format, Policy, Decision, tables_of, with_tables, is_skip, is_catch_up,
  occurrence_is, waits, earliest, watermark_is, set_watermark, scheduled_run, enqueue_run,
  decision_status, decision_fields, policy_text,
}

-- what one tick takes from outside: the minute it is for, the clock, and the id of a run that it
-- makes for a task
pub record Tick : Type 0 where
  pub current : ℕ
  pub wall : ℕ
  pub fresh_id : String → String

-- both guards of the catalogue, where a ValidationError means that an item is deleted or foreign
unfoldable pub catalog_state : Result (Unit {0}) → Result Bool
catalog_state (ok done) = ok true
catalog_state (err (Error.validation reason)) = ok false
catalog_state (err raised) = err raised

-- the task is enabled with this version
unfoldable pub still_active : TaskVersion → Option Task → Bool
still_active version none = false
still_active version (some task) =
    task.enabled && opt_str_eq task.active_version_hash version.version_hash

abbrev pub previous_of : ℕ → Option Watermark → ℕ
previous_of current none = current - minute_length
previous_of current (some w) = w.evaluated_through

abbrev pub search_start : Policy → ℕ → ℕ → ℕ
search_start policy current previous = if is_skip policy then current - minute_length else previous

-- a decision with the watermark that it leaves
abbrev pub Outcome : Type 0
Outcome = Decision × ℕ × Store

module _ (host : Host) (format : Format) (tick : Tick) where
  unfoldable pub enqueue_due : String → TaskVersion → Policy → ℕ → Store → Result Outcome
  unfolding enqueue_run is_catch_up
  enqueue_due task_id version policy time store =
      enqueue_run host format
        (scheduled_run host format (tick.fresh_id task_id) task_id version time tick.wall) version
        store
      >>= λ queued. ok (
        Decision.enqueued (tick.fresh_id task_id) time,
        (if is_catch_up policy then time else tick.current),
        queued,
      )

  -- the occurrence is there already, or a run of the task is queued, or a run is due
  unfoldable pub decide_due :
      String → TaskVersion → Policy → ℕ → ℕ → Option Run → Option Run → Store → Result Outcome
  unfolding enqueue_due is_catch_up
  decide_due task_id version policy previous time (some r) pending store =
      ok (Decision.occurred r.run_id, tick.current, store)
  decide_due task_id version policy previous time none (some r) store = ok (
    Decision.coalesced r.run_id time,
    (if is_catch_up policy then previous else tick.current),
    store,
  )
  decide_due task_id version policy previous time none none store =
      enqueue_due task_id version policy time store

  abbrev pub decision_event : String → Decision → CronExpression → Policy → ℕ → ℕ → AuditEvent
  decision_event task_id decision cron policy previous advance = record {
    entity_type = "task";
    entity_id = task_id;
    event_type = "schedule_decision";
    details_json = obj (
        field "task_id" (str task_id) (
          field "status" (str (decision_status host format decision)) (
            field "task_time" (str (format.iso_seoul tick.current)) (
              join_fields (decision_fields host format decision cron) (
                field "evaluated_from" (str (format.iso previous)) (
                  field "evaluated_through" (str (format.iso advance))
                    (field "misfire_policy" (str (policy_text policy)) end)))))));
    actor = "single-operator";
    occurred_at = tick.wall;
  }

  unfoldable pub record_decision : String → CronExpression → Policy → ℕ → Outcome → Outcome
  unfolding join_fields policy_text
  record_decision task_id cron policy previous (decision, advance, store) = (
    decision,
    advance,
    with_tables
        (record (tables_of store) {
          audit_events =
              (tables_of store).audit_events
              ++ decision_event task_id decision cron policy previous advance ∷ [];
        })
        store,
  )

  unfoldable pub decide :
      String → TaskVersion → CronExpression → Policy → ℕ → Option ℕ → Store → Result Outcome
  unfolding decide_due record_decision earliest
  decide task_id version cron policy previous none store =
      ok (Decision.not_due, tick.current, store)
  decide task_id version cron policy previous (some time) store =
      decide_due task_id version policy previous time
        (find (occurrence_is task_id time) (tables_of store).runs)
        (earliest (select (waits task_id) (tables_of store).runs)) store
      >>= λ outcome. ok (record_decision task_id cron policy previous outcome)

  -- the decision, once the task is known to be active
  unfoldable pub tick_active :
      String → TaskVersion → CronExpression → Policy → ℕ → Store → Result (Decision × Store)
  unfolding occurrence_between decide set_watermark is_skip is_catch_up
  tick_active task_id version cron policy previous store =
      if leb tick.current previous
      then ok (Decision.skipped "already_scheduled", store)
      else (decide task_id version cron policy previous
            (occurrence_between cron (search_start policy tick.current previous) tick.current
              (not (is_catch_up policy)))
            store
          >>= λ outcome. ok (outcome.0, set_watermark task_id outcome.1 outcome.2))

  -- _tick_task
  unfoldable pub tick_task :
      String → TaskVersion → CronExpression → Policy → Store → Result (Decision × Store)
  unfolding require_catalog_active require_catalog_references catalog_state still_active tick_active
  tick_task task_id version cron policy store =
      catalog_state (
        require_catalog_active "task" task_id store.accounts
        >> (require_catalog_references none version.definition_json store.accounts >>= λ owner.
            ok tt))
      >>= λ present.
          if not present
          then ok (Decision.skipped "catalog_item_deleted", store)
          else if not (still_active version (find (task_is task_id) (tables_of store).tasks))
          then ok (Decision.skipped "task_changed", store)
          else tick_active task_id version cron policy
              (previous_of tick.current (find (watermark_is task_id) store.watermarks)) store
