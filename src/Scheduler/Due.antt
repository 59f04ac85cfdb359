-- ===== src/Scheduler/Due.antt =====
-- A run that a tick queues is due, and the task had no run waiting for it.
use research_ops_automation.Base.{
  ℕ, String, Bool, false, ◌≡◌, refl, ◌∙◌, leb, Option, none, some, List, [], ◌∷◌, find, exists,
  select, ok, >>=-ok, arith, Bool-cases, inl, inr, if◌then◌else◌, find-none-exists,
}
use research_ops_automation.Base.Host.{Host}
use research_ops_automation.Domain.{Run, TaskVersion}
use research_ops_automation.Scheduler.Cron.{CronExpression}
use research_ops_automation.Scheduler.Days.{IsBounded}
use research_ops_automation.Scheduler.Exact.{Occurrence}
use research_ops_automation.Scheduler.Tick.{
  Store, Format, Policy, Decision, tables_of, occurrence_is, waits, earliest, watermark_is,
  enqueue_run,
}
use research_ops_automation.Scheduler.Decide.{
  Tick, Outcome, enqueue_due, decide_due, record_decision, decide, tick_active, tick_task,
  search_start, previous_of, catalog_state, still_active,
}
use research_ops_automation.Base.{◌>>=◌, ◌>>◌, ap}
use research_ops_automation.Delivery.Rows.{task_is}
use research_ops_automation.Ownership.{require_catalog_active, require_catalog_references}
use research_ops_automation.Scheduler.Advance.{ok_is}
use research_ops_automation.Scheduler.Advance.{new_run}
use research_ops_automation.Scheduler.Watermarks.{outcome_of, due_of, pair_is}

earliest-none :
    (p : Run → Bool) (rs : List Run) → earliest (select p rs) ≡ none → exists p rs ≡ false
unfolding select exists earliest
earliest-none p [] h = refl
earliest-none p (r ∷ rs) h = elim (Bool-cases (p r)) [
  | inr f ↦ rw f (earliest-none p rs (rw f at h))
  | inl t ↦ absurd (never (earliest (select p rs)) (rw t at h))
]
  where
    never :
        (o : Option Run)
        → (elim o [
          | none ↦ some r
          | some q ↦ if leb r.created_at q.created_at then some r else some q
        ])
          ≡ none
        → ⊥
    never none q = absurd (ground arith)
    never (some q) e = absurd (ground arith)

module _ (host : Host) (format : Format) (tick : Tick) where
  due_enqueued :
      (task_id run_id : String) (version : TaskVersion) (policy : Policy) (previous time due : ℕ)
      (there pending : Option Run) (store : Store) (outcome : Outcome)
      → decide_due host format tick task_id version policy previous due there pending store
        ≡ ok outcome
      → outcome.0 ≡ Decision.enqueued run_id time
      → (there ≡ none) × (pending ≡ none) × (due ≡ time)
  unfolding decide_due enqueue_due
  due_enqueued task_id run_id version policy previous time due (some r) pending store outcome h e =
      absurd (cc (ap (λ (o : Outcome). o.0) (ok_is h), e))
  due_enqueued task_id run_id version policy previous time due none (some r) store outcome h e =
      absurd (cc (ap (λ (o : Outcome). o.0) (ok_is h), e))
  due_enqueued task_id run_id version policy previous time due none none store outcome h e =
      let (queued, _, h1) =
        >>=-ok
          (enqueue_run host format (new_run host format tick task_id version due) version store) _
          h in
      (refl, refl, cc (ap (λ (o : Outcome). o.0) (ok_is h1), e))

  decide_enqueued :
      (task_id run_id : String) (version : TaskVersion) (cron : CronExpression) (policy : Policy)
      (previous time : ℕ) (o : Option ℕ) (store : Store) (outcome : Outcome)
      → decide host format tick task_id version cron policy previous o store ≡ ok outcome
      → outcome.0 ≡ Decision.enqueued run_id time
      → (o ≡ some time)
        × (exists (waits task_id) (tables_of store).runs ≡ false)
        × (exists (occurrence_is task_id time) (tables_of store).runs ≡ false)
  unfolding decide record_decision
  decide_enqueued task_id run_id version cron policy previous time none store outcome h e =
      absurd (cc (ap (λ (o : Outcome). o.0) (ok_is h), e))
  decide_enqueued task_id run_id version cron policy previous time (some due) store outcome h e =
      let there = find (occurrence_is task_id due) (tables_of store).runs in
      let pending = earliest (select (waits task_id) (tables_of store).runs) in
      let (made, q, h1) =
        >>=-ok (decide_due host format tick task_id version policy previous due there pending store)
          _ h in
      let first : made.0 ≡ outcome.0 = ap (λ (o : Outcome). o.0) (ok_is h1) in
      let (a, b, c) =
        due_enqueued task_id run_id version policy previous time due there pending store made q
          (first ∙ e) in
      (
        ap (λ t. some t) c,
        earliest-none (waits task_id) (tables_of store).runs b,
        rw (← c) (find-none-exists (occurrence_is task_id due) (tables_of store).runs a),
      )

  -- Where a tick queues a run of a task for a minute, under an expression whose hours and
  -- minutes are those of a day, the expression matches the minute, which lies after the start of
  -- the search and no later than the tick, and the task had neither a queued run nor a scheduled
  -- run for that minute.
  pub enqueued_due :
      (task_id run_id : String) (time : ℕ) (version : TaskVersion) (cron : CronExpression)
      (policy : Policy) (store after : Store)
      → IsBounded cron
      → tick_task host format tick task_id version cron policy store
        ≡ ok (Decision.enqueued run_id time, after)
      → Occurrence cron
          (search_start policy tick.current
            (previous_of tick.current (find (watermark_is task_id) store.watermarks)))
          tick.current
          time
        × (exists (waits task_id) (tables_of store).runs ≡ false)
        × (exists (occurrence_is task_id time) (tables_of store).runs ≡ false)
  unfolding tick_task tick_active
  enqueued_due task_id run_id time version cron policy store after bounded h =
      let (present, _, h1) =
        >>=-ok
          (catalog_state (
            require_catalog_active "task" task_id store.accounts
            >> (require_catalog_references none version.definition_json store.accounts >>= λ owner.
                ok tt)))
          _ h in
      let previous = previous_of tick.current (find (watermark_is task_id) store.watermarks) in
      elim (Bool-cases present) [
        | inr f ↦ absurd (cc (pair_is (rw f at h1)).0)
        | inl t ↦
            elim (Bool-cases
              (still_active version (find (task_is task_id) (tables_of store).tasks))) [
                | inr f ↦ absurd (cc (pair_is (rw (t, f) at h1)).0)
                | inl u ↦ elim (Bool-cases (leb tick.current previous)) [
                  | inl g ↦ absurd (cc (pair_is (rw (t, u, g) at h1)).0)
                  | inr g ↦
                      let (outcome, e, decided, _) =
                        outcome_of host format tick task_id version cron policy previous store after
                          (Decision.enqueued run_id time) g (rw (t, u) at h1) in
                      let (o, idle, new) =
                        decide_enqueued task_id run_id version cron policy previous time _ store
                          outcome e decided in
                      (due_of host format tick cron policy previous time bounded o, idle, new)
                ]
              ]
      ]
