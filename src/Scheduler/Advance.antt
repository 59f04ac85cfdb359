-- ===== src/Scheduler/Advance.antt =====
-- What a decision of the tick does to the watermark of its task.
use research_ops_automation.Base.{
  ℕ, String, Bool, true, false, ◌<◌, ◌≤◌, ◌≡◌, refl, ◌∙◌, Option, none, some, find, select, Result,
  ok, >>=-ok, arith, if◌then◌else◌,
}
use research_ops_automation.Base.Host.{Host}
use research_ops_automation.Base.Json.{null, get}
use research_ops_automation.Domain.{Run, TaskVersion}
use research_ops_automation.Plan.Stages.{resolve_task_stages}
use research_ops_automation.Plan.Build.{build_execution_plan}
use research_ops_automation.Scheduler.Cron.{CronExpression}
use research_ops_automation.Scheduler.Tick.{
  Store, Format, Policy, Decision, tables_of, is_catch_up, occurrence_is, waits, earliest,
  scheduled_run, enqueue_run, insert_run, insert_controls, insert_execution_plan, runner_of,
  selection_of,
}
use research_ops_automation.Scheduler.Decide.{
  Tick, Outcome, enqueue_due, decide_due, record_decision, decide,
}

pub ok_is {ℓ} : {A : Type ℓ} {a b : A} → Path (Result A) (ok a) (ok b) → a ≡ b
ok_is h = cc

module _ (host : Host) (format : Format) (tick : Tick) where
  plan-watermarks :
      (run_id : String) (plan : _) (store after : Store)
      → insert_execution_plan host format run_id plan store ≡ ok after
      → after.watermarks ≡ store.watermarks
  unfolding insert_execution_plan
  plan-watermarks run_id plan store after h = ground arith

  insert-watermarks :
      (r : Run) (store after : Store)
      → insert_run r store ≡ ok after
      → after.watermarks ≡ store.watermarks
  unfolding insert_run
  insert-watermarks r store after h = ground arith

  enqueue-watermarks :
      (r : Run) (version : TaskVersion) (store after : Store)
      → enqueue_run host format r version store ≡ ok after
      → after.watermarks ≡ store.watermarks
  unfolding enqueue_run insert_controls
  enqueue-watermarks r version store after h =
      let (queued, a, h1) = >>=-ok (insert_run r store) _ h in
      let (stages, _, h2) =
        >>=-ok (resolve_task_stages (runner_of (get "runner" version.definition_json))) _ h1 in
      let (plan, _, h3) =
        >>=-ok (build_execution_plan stages "full" null (selection_of version.version_hash) null) _
          h2 in
      plan-watermarks r.run_id plan (insert_controls r.run_id queued) after h3
      ∙ insert-watermarks r store queued a

  -- what is known of the occurrence that a decision is about
  abbrev pub IsDue : ℕ → Option ℕ → Type 0
  IsDue previous o = (time : ℕ) → o ≡ some time → (previous < time) × (time ≤ tick.current)

  abbrev pub Advances : ℕ → Store → Outcome → Type 0
  Advances previous store outcome =
      (previous ≤ outcome.1)
      × (outcome.1 ≤ tick.current)
      × (outcome.2.watermarks ≡ store.watermarks)

  abbrev pub new_run : String → TaskVersion → ℕ → Run
  new_run task_id version time =
      scheduled_run host format (tick.fresh_id task_id) task_id version time tick.wall

  enqueue-Advances :
      (task_id : String) (version : TaskVersion) (policy : Policy) (previous time : ℕ)
      (store : Store) (outcome : Outcome)
      → enqueue_due host format tick task_id version policy time store ≡ ok outcome
      → (is_catch_up policy ≡ true → previous < time)
      → previous < tick.current
      → time ≤ tick.current
      → Advances previous store outcome
  unfolding enqueue_due
  enqueue-Advances task_id version policy previous time store outcome h late before due =
      let (queued, a, h1) =
        >>=-ok (enqueue_run host format (new_run task_id version time) version store) _ h in
      rw (← ok_is h1) (
        either queued (is_catch_up policy) refl
          (enqueue-watermarks (new_run task_id version time) version store queued a))
    where
      either :
          (queued : Store) (b : Bool)
          → is_catch_up policy ≡ b
          → queued.watermarks ≡ store.watermarks
          → Advances previous store (
            Decision.enqueued (tick.fresh_id task_id) time,
            (if b then time else tick.current),
            queued,
          )
      either queued true e same = (omega (arith, late e), omega arith, same)
      either queued false e same = (omega arith, omega arith, same)

  due-Advances :
      (task_id : String) (version : TaskVersion) (policy : Policy) (previous time : ℕ)
      (there pending : Option Run) (store : Store) (outcome : Outcome)
      → decide_due host format tick task_id version policy previous time there pending store
        ≡ ok outcome
      → (is_catch_up policy ≡ true → previous < time)
      → previous < tick.current
      → time ≤ tick.current
      → Advances previous store outcome
  unfolding decide_due
  due-Advances task_id version policy previous time (some r) pending store outcome h late before
        due =
      rw (← ok_is h) (omega arith, omega arith, refl)
  due-Advances task_id version policy previous time none (some r) store outcome h late before due =
      rw (← ok_is h) (either (is_catch_up policy))
    where
      either :
          (b : Bool)
          → Advances previous store
              (Decision.coalesced r.run_id time, (if b then previous else tick.current), store)
      either true = (omega arith, omega arith, refl)
      either false = (omega arith, omega arith, refl)
  due-Advances task_id version policy previous time none none store outcome h late before due =
      enqueue-Advances task_id version policy previous time store outcome h late before due

  pub decide-Advances :
      (task_id : String) (version : TaskVersion) (cron : CronExpression) (policy : Policy)
      (previous : ℕ) (o : Option ℕ) (store : Store) (outcome : Outcome)
      → decide host format tick task_id version cron policy previous o store ≡ ok outcome
      → ((time : ℕ)
          → o ≡ some time
          → (is_catch_up policy ≡ true → previous < time) × (time ≤ tick.current))
      → previous < tick.current
      → Advances previous store outcome
  unfolding decide record_decision
  decide-Advances task_id version cron policy previous none store outcome h due before =
      rw (← ok_is h) (omega arith, omega arith, refl)
  decide-Advances task_id version cron policy previous (some time) store outcome h due before =
      let (made, e, h1) =
        >>=-ok
          (decide_due host format tick task_id version policy previous time
            (find (occurrence_is task_id time) (tables_of store).runs)
            (earliest (select (waits task_id) (tables_of store).runs)) store)
          _ h in
      let known =
        due-Advances task_id version policy previous time _ _ store made e (due time refl).0 before
          (due time refl).1 in
      rw (← ok_is h1) known
