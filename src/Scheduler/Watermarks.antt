-- ===== src/Scheduler/Watermarks.antt =====
-- A tick never takes the watermark of a task back, and what it queues is due.
use research_ops_automation.Base.{
  ℕ, String, Bool, true, false, not, ◌&&◌, ◌==◌, ◌≤◌, ◌≡◌, refl, leb, Option, none, some, List, [],
  ◌∷◌, ◌++◌, find, exists, update_where, Result, ok, >>=-ok, arith, Bool-cases, inl, inr, eq_iff,
  if◌then◌else◌,
}
use research_ops_automation.Base.Host.{Host}
use research_ops_automation.Domain.{TaskVersion}
use research_ops_automation.Scheduler.Cron.{CronExpression}
use research_ops_automation.Scheduler.Occurrence.{occurrence_between}
use research_ops_automation.Scheduler.Days.{IsBounded}
use research_ops_automation.Scheduler.Exact.{Occurrence, occurrence_between-IsBest}
use research_ops_automation.Scheduler.Search.{IsBest}
use research_ops_automation.Scheduler.Tick.{
  Watermark, Store, Format, Policy, Decision, tables_of, is_skip, is_catch_up, watermark_is,
  set_watermark,
}
use research_ops_automation.Scheduler.Decide.{
  Tick, Outcome, decide, tick_active, tick_task, search_start, previous_of, catalog_state,
  still_active,
}
use research_ops_automation.Base.{◌>>=◌, ◌>>◌}
use research_ops_automation.Delivery.Rows.{task_is}
use research_ops_automation.Ownership.{require_catalog_active, require_catalog_references}
use research_ops_automation.Scheduler.Advance.{decide-Advances}

abbrev pub through : Option Watermark → ℕ
through none = 0
through (some w) = w.evaluated_through

-- how far a task's schedule is evaluated, 0 where it never was
abbrev pub reached : String → List Watermark → ℕ
reached task_id rows = through (find (watermark_is task_id) rows)

abbrev moved : ℕ → Watermark → Watermark
moved time w = record w { evaluated_through = time }

reached-update :
    (task_id other : String) (time : ℕ) (rows : List Watermark)
    → reached other (update_where (watermark_is task_id) (moved time) rows)
      ≡ (if task_id == other && exists (watermark_is other) rows then time else reached other rows)
unfolding find exists update_where
reached-update task_id other time [] = ground arith
reached-update task_id other time (w ∷ rows) = elim (Bool-cases (watermark_is task_id w)) [
  | inl t ↦ rw t (
      ground (
        arith,
        t,
        eq_iff w.task_id other,
        eq_iff w.task_id task_id,
        eq_iff task_id other,
        reached-update task_id other time rows,
      ))
  | inr f ↦ rw f (
      ground (
        arith,
        f,
        eq_iff w.task_id other,
        eq_iff w.task_id task_id,
        eq_iff task_id other,
        reached-update task_id other time rows,
      ))
]

reached-add :
    (other : String) (new : Watermark) (rows : List Watermark)
    → exists (watermark_is new.task_id) rows ≡ false
    → reached other (rows ++ new ∷ [])
      ≡ (if new.task_id == other then new.evaluated_through else reached other rows)
unfolding find exists
reached-add other new [] h = ground arith
reached-add other new (w ∷ rows) h = ground (
  arith,
  eq_iff w.task_id other,
  eq_iff w.task_id new.task_id,
  eq_iff new.task_id other,
  reached-add other new rows,
)

reached-set_watermark :
    (task_id other : String) (time : ℕ) (store : Store)
    → reached other (set_watermark task_id time store).watermarks
      ≡ (if task_id == other then time else reached other store.watermarks)
unfolding set_watermark
reached-set_watermark task_id other time store =
    elim (Bool-cases (exists (watermark_is task_id) store.watermarks)) [
      | inl t ↦ rw t (
          ground
            (arith, reached-update task_id other time store.watermarks, t, eq_iff task_id other))
      | inr f ↦ rw f (reached-add other _ store.watermarks f)
    ]

pub pair_is {ℓ κ} :
    {A : Type ℓ} {B : Type κ} {a c : A} {b d : B}
    → Path (Result (A × B)) (ok (a, b)) (ok (c, d))
    → (a ≡ c) × (b ≡ d)
pair_is h = (cc, cc)

best_some :
    (latest : Bool) (P : ℕ → Type 0) (o : Option ℕ) (s : ℕ) → IsBest latest P o → o ≡ some s → P s
best_some latest P none s best e = cc
best_some latest P (some t) s best e = rw (← same e) best.0
  where
    same : Path (Option ℕ) (some t) (some s) → t ≡ s
    same q = cc

reached-previous : (current : ℕ) (o : Option Watermark) → through o ≤ previous_of current o
reached-previous current none = omega arith
reached-previous current (some w) = omega arith

caught_up :
    (policy : Policy) (current previous : ℕ)
    → is_catch_up policy ≡ true
    → search_start policy current previous ≡ previous
unfolding is_catch_up is_skip
caught_up Policy.skip current previous h = cc
caught_up Policy.enqueue_once current previous h = cc
caught_up Policy.catch_up current previous h = refl

module _ (host : Host) (format : Format) (tick : Tick) where
  pub outcome_of :
      (task_id : String) (version : TaskVersion) (cron : CronExpression) (policy : Policy)
      (previous : ℕ) (store after : Store) (decision : Decision)
      → leb tick.current previous ≡ false
      → tick_active host format tick task_id version cron policy previous store
        ≡ ok (decision, after)
      → (outcome : Outcome) × (decide host format tick task_id version cron policy previous
            (occurrence_between cron
              (search_start policy tick.current previous)
              tick.current
              (not (is_catch_up policy)))
            store
          ≡ ok outcome)
        × (outcome.0 ≡ decision)
        × (set_watermark task_id outcome.1 outcome.2 ≡ after)
  unfolding tick_active
  outcome_of task_id version cron policy previous store after decision f h =
      let (outcome, e, h1) =
        >>=-ok
          (decide host format tick task_id version cron policy previous
            (occurrence_between cron (search_start policy tick.current previous) tick.current
              (not (is_catch_up policy)))
            store)
          _ (rw f at h) in
      (outcome, e, (pair_is h1).0, (pair_is h1).1)

  pub due_of :
      (cron : CronExpression) (policy : Policy) (previous time : ℕ)
      → IsBounded cron
      → occurrence_between cron
          (search_start policy tick.current previous)
          tick.current
          (not (is_catch_up policy))
        ≡ some time
      → Occurrence cron (search_start policy tick.current previous) tick.current time
  due_of cron policy previous time bounded e =
      best_some (not (is_catch_up policy)) _ _ time
        (occurrence_between-IsBest (not (is_catch_up policy))
          (search_start policy tick.current previous) tick.current cron bounded)
        e

  active-Advances :
      (task_id other : String) (version : TaskVersion) (cron : CronExpression) (policy : Policy)
      (store after : Store) (decision : Decision)
      → IsBounded cron
      → tick_active host format tick task_id version cron policy
          (previous_of tick.current (find (watermark_is task_id) store.watermarks))
          store
        ≡ ok (decision, after)
      → reached other store.watermarks ≤ reached other after.watermarks
  unfolding tick_active
  active-Advances task_id other version cron policy store after decision bounded h =
      let previous = previous_of tick.current (find (watermark_is task_id) store.watermarks) in
      elim (Bool-cases (leb tick.current previous)) [
        | inl t ↦ rw (← (pair_is (rw t at h)).1) (omega arith)
        | inr f ↦
            let (outcome, e, _, stored) =
              outcome_of task_id version cron policy previous store after decision f h in
            let known =
              decide-Advances host format tick task_id version cron policy previous _ store outcome
                e
                (λ time o. (
                  (λ late. omega (
                    arith,
                    (due_of cron policy previous time bounded o).2,
                    caught_up policy tick.current previous late,
                  )),
                  (due_of cron policy previous time bounded o).3,
                ))
                (ground (arith, f)) in
            rw (← stored, reached-set_watermark task_id other outcome.1 outcome.2, known.2)
              (either (task_id == other) refl outcome.1 known.0)
      ]
    where
      either :
          (b : Bool)
          → (task_id == other) ≡ b
          → (advance : ℕ)
          → previous_of tick.current (find (watermark_is task_id) store.watermarks) ≤ advance
          → reached other store.watermarks ≤ (if b then advance else reached other store.watermarks)
      either false e advance le = omega arith
      either true e advance le =
          let same = (eq_iff task_id other).0 e in
          rw (← same) (
            omega (
              arith,
              le,
              reached-previous tick.current (find (watermark_is task_id) store.watermarks),
            ))

  -- A tick of a task that succeeds, under an expression whose hours and minutes are those of a
  -- day, takes no task's watermark back.
  pub reached-tick_task :
      (task_id other : String) (version : TaskVersion) (cron : CronExpression) (policy : Policy)
      (store after : Store) (decision : Decision)
      → IsBounded cron
      → tick_task host format tick task_id version cron policy store ≡ ok (decision, after)
      → reached other store.watermarks ≤ reached other after.watermarks
  unfolding tick_task
  reached-tick_task task_id other version cron policy store after decision bounded h =
      let (present, _, h1) =
        >>=-ok
          (catalog_state (
            require_catalog_active "task" task_id store.accounts
            >> (require_catalog_references none version.definition_json store.accounts >>= λ owner.
                ok tt)))
          _ h in
      elim (Bool-cases present) [
        | inr f ↦ rw (← (pair_is (rw f at h1)).1) (omega arith)
        | inl t ↦
            elim (Bool-cases
              (still_active version (find (task_is task_id) (tables_of store).tasks))) [
                | inr f ↦ rw (← (pair_is (rw (t, f) at h1)).1) (omega arith)
                | inl u ↦
                    active-Advances task_id other version cron policy store after decision bounded
                      (rw (t, u) at h1)
              ]
      ]
