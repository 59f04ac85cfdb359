-- ===== src/Scheduler/Served.antt =====
-- A minute that is due is not passed over: the tick queues a run for it.
use research_ops_automation.Base.{
  ℕ, String, Bool, true, false, not, ◌<◌, ◌≡◌, refl, ◌∙◌, Option, none, some, List, [], ◌∷◌, ◌++◌,
  find, exists, select, ok, >>=-ok, ◌>>=◌, ◌>>◌, ap, sym, arith, find-none,
}
use research_ops_automation.Base.Host.{Host}
use research_ops_automation.Base.Json.{null, get}
use research_ops_automation.Domain.{Run, TaskVersion}
use research_ops_automation.Delivery.Rows.{task_is}
use research_ops_automation.Ownership.{require_catalog_active, require_catalog_references}
use research_ops_automation.Plan.Stages.{resolve_task_stages}
use research_ops_automation.Plan.Build.{build_execution_plan}
use research_ops_automation.Scheduler.Cron.{CronExpression}
use research_ops_automation.Scheduler.Days.{IsBounded}
use research_ops_automation.Scheduler.Search.{Beats, IsBest}
use research_ops_automation.Scheduler.Exact.{Occurrence, occurrence_between-IsBest}
use research_ops_automation.Scheduler.Tick.{
  Store, Format, Policy, Decision, tables_of, is_catch_up, occurrence_is, waits, earliest,
  watermark_is, set_watermark, enqueue_run, insert_run, insert_controls, insert_execution_plan,
  runner_of, selection_of,
}
use research_ops_automation.Scheduler.Decide.{
  Tick, Outcome, enqueue_due, decide_due, record_decision, decide, tick_task, search_start,
  previous_of, catalog_state, still_active,
}
use research_ops_automation.Scheduler.Advance.{ok_is, new_run}
use research_ops_automation.Scheduler.Watermarks.{outcome_of}

earliest_idle :
    (p : Run → Bool) (rs : List Run) → exists p rs ≡ false → earliest (select p rs) ≡ none
unfolding select exists earliest
earliest_idle p [] h = refl
earliest_idle p (r ∷ rs) h = ground (arith, earliest_idle p rs)

module _ (host : Host) (format : Format) (tick : Tick) where
  plan-runs :
      (run_id : String) (plan : _) (store after : Store)
      → insert_execution_plan host format run_id plan store ≡ ok after
      → (tables_of after).runs ≡ (tables_of store).runs
  unfolding insert_execution_plan
  plan-runs run_id plan store after h = ground arith

  insert-runs :
      (r : Run) (store after : Store)
      → insert_run r store ≡ ok after
      → (tables_of after).runs ≡ (tables_of store).runs ++ r ∷ []
  unfolding insert_run
  insert-runs r store after h = ground arith

  enqueue-runs :
      (r : Run) (version : TaskVersion) (store after : Store)
      → enqueue_run host format r version store ≡ ok after
      → (tables_of after).runs ≡ (tables_of store).runs ++ r ∷ []
  unfolding enqueue_run insert_controls
  enqueue-runs r version store after h =
      let (queued, a, h1) = >>=-ok (insert_run r store) _ h in
      let (stages, _, h2) =
        >>=-ok (resolve_task_stages (runner_of (get "runner" version.definition_json))) _ h1 in
      let (plan, _, h3) =
        >>=-ok (build_execution_plan stages "full" null (selection_of version.version_hash) null) _
          h2 in
      plan-runs r.run_id plan (insert_controls r.run_id queued) after h3
      ∙ insert-runs r store queued a

  set-runs :
      (task_id : String) (time : ℕ) (store : Store)
      → (tables_of (set_watermark task_id time store)).runs ≡ (tables_of store).runs
  unfolding set_watermark
  set-runs task_id time store = ground arith

  -- the tick queued one run, for this minute
  abbrev pub QueuesFor : String → TaskVersion → Store → ℕ → Decision → Store → Type 0
  QueuesFor task_id version store time decision after =
      (decision ≡ Decision.enqueued (tick.fresh_id task_id) time)
      × ((tables_of after).runs
          ≡ (tables_of store).runs ++ new_run host format tick task_id version time ∷ [])

  decide_idle :
      (task_id : String) (version : TaskVersion) (cron : CronExpression) (policy : Policy)
      (previous time : ℕ) (store : Store) (outcome : Outcome)
      → decide host format tick task_id version cron policy previous (some time) store ≡ ok outcome
      → exists (waits task_id) (tables_of store).runs ≡ false
      → exists (occurrence_is task_id time) (tables_of store).runs ≡ false
      → QueuesFor task_id version store time outcome.0 outcome.2
  unfolding decide decide_due enqueue_due record_decision
  decide_idle task_id version cron policy previous time store outcome h idle new =
      let (made, q, h1) =
        >>=-ok
          (decide_due host format tick task_id version policy previous time
            (find (occurrence_is task_id time) (tables_of store).runs)
            (earliest (select (waits task_id) (tables_of store).runs)) store)
          _ h in
      let (queued, a, h2) =
        >>=-ok
          (enqueue_run host format (new_run host format tick task_id version time) version store) _
          (rw
            (
              find-none (occurrence_is task_id time) (tables_of store).runs new,
              earliest_idle (waits task_id) (tables_of store).runs idle,
            )
            at q) in
      rw (← ok_is h1, ← ok_is h2) (refl, enqueue-runs _ version store queued a)

  served :
      (task_id : String) (version : TaskVersion) (cron : CronExpression) (policy : Policy)
      (previous t : ℕ) (store after : Store) (decision : Decision) (P : ℕ → Type 0) (o : Option ℕ)
      (outcome : Outcome)
      → IsBest (not (is_catch_up policy)) P o
      → P t
      → decide host format tick task_id version cron policy previous o store ≡ ok outcome
      → outcome.0 ≡ decision
      → set_watermark task_id outcome.1 outcome.2 ≡ after
      → exists (waits task_id) (tables_of store).runs ≡ false
      → ((s : ℕ) → P s → exists (occurrence_is task_id s) (tables_of store).runs ≡ false)
      → (time : ℕ) × QueuesFor task_id version store time decision after
        × P time
        × ((s : ℕ) → P s → Beats (not (is_catch_up policy)) time s)
  served task_id version cron policy previous t store after decision P none outcome best due h e
        stored idle new =
      absurd (best t due)
  served task_id version cron policy previous t store after decision P (some time) outcome best due
        h e stored idle new =
      let made =
        decide_idle task_id version cron policy previous time store outcome h idle
          (new time best.0) in
      (
        time,
        (
          sym e ∙ made.0,
          ap (λ (s : Store). (tables_of s).runs) (sym stored)
              ∙ set-runs task_id outcome.1 outcome.2
              ∙ made.1,
        ),
        best.0,
        best.1,
      )

  -- the minutes that a tick answers for
  abbrev pub Due : String → CronExpression → Policy → Store → ℕ → Type 0
  Due task_id cron policy store =
      Occurrence cron
        (search_start policy tick.current
          (previous_of tick.current (find (watermark_is task_id) store.watermarks)))
        tick.current

  -- Where a tick of a task succeeds, under an expression whose hours and minutes are those of a
  -- day, and the catalogue accepts the task, the version is still active, the watermark lies
  -- before the tick, no run of the task is queued, some minute is due, and no minute that is due
  -- has a scheduled run, then the tick queues one run, for the last due minute, or for the first
  -- one if the policy is to catch up, and the table of runs is the old one with that run.
  pub due_queued :
      (task_id : String) (version : TaskVersion) (cron : CronExpression) (policy : Policy) (t : ℕ)
      (store after : Store) (decision : Decision)
      → IsBounded cron
      → tick_task host format tick task_id version cron policy store ≡ ok (decision, after)
      → catalog_state (
          require_catalog_active "task" task_id store.accounts
          >> (require_catalog_references none version.definition_json store.accounts >>= λ owner.
              ok tt))
        ≡ ok true
      → still_active version (find (task_is task_id) (tables_of store).tasks) ≡ true
      → previous_of tick.current (find (watermark_is task_id) store.watermarks) < tick.current
      → Due task_id cron policy store t
      → exists (waits task_id) (tables_of store).runs ≡ false
      → ((s : ℕ)
          → Due task_id cron policy store s
          → exists (occurrence_is task_id s) (tables_of store).runs ≡ false)
      → (time : ℕ) × QueuesFor task_id version store time decision after
        × Due task_id cron policy store time
        × ((s : ℕ) → Due task_id cron policy store s → Beats (not (is_catch_up policy)) time s)
  unfolding tick_task
  due_queued task_id version cron policy t store after decision bounded h present active before due
        idle new =
      let previous = previous_of tick.current (find (watermark_is task_id) store.watermarks) in
      let (outcome, e, decided, stored) =
        outcome_of host format tick task_id version cron policy previous store after decision
          (ground (arith, before)) (rw (present, active) at h) in
      served task_id version cron policy previous t store after decision
        (Due task_id cron policy store) _ outcome
        (occurrence_between-IsBest (not (is_catch_up policy))
          (search_start policy tick.current previous) tick.current cron bounded)
        due e decided stored idle new
