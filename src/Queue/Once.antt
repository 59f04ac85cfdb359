-- ===== src/Queue/Once.antt =====
-- SmtpQueue.start_data over every sequence of the queue's operations: DATA is started once at most
-- on a job, and only a job on which it was started is accepted.

use research_ops_automation.Base.{
  ℕ, ◌≤◌, String, Bool, true, ◌&&◌, ◌==◌, eq_iff, eqb, Bool-cases, Result-cases, ◌≡◌, refl, sym, ap,
  ◌∙◌, none, some, List, [], ◌∷◌, find, exists, update_where, Error, ok, err, arith, inl, inr,
  find_holds, found-exists, find_unique, find-update_where, exists_unique, exists-find, changed,
}
use mathlib.Core.Option
use research_ops_automation.Base.Host.{Host}
use research_ops_automation.Domain.{AttemptStatus, Attempt, Db}
use research_ops_automation.Delivery.Rows.{
  job_is, is_sending, is_accepted, is_data_started, is_prepared,
}
use research_ops_automation.Queue.Dispatch
use research_ops_automation.Queue.Dispatch.{start_data, checks, startable}
use research_ops_automation.Queue.Moves.{stage, begun, Moves_induction}
use research_ops_automation.Queue.Invariant.{IsSound}
use research_ops_automation.Queue.Stages.{Reached, Unbegun, Move-Unbegun}
use research_ops_automation.Queue.Attempts.{attempts-record_delivery_event}
use research_ops_automation.Queue.Steps.{
  Op, enqueue_message, claim_job, start, stage_recorded, finish_job, retry_job, recover, cancel_run,
  step, steps, did_start, data_starts,
}
use research_ops_automation.Queue.History.{step-Moves}
use research_ops_automation.Queue.Promises.{step-IsSound, step-Reached}

startable-stage : (job token : String) (x : Attempt) → startable job token x ≡ true → stage x ≡ 1
unfolding stage is_sending is_prepared is_data_started
startable-stage job token x h = ground arith

started_stage :
    (now : ℕ) (job token : String) (x : Attempt)
    → startable job token x ≡ true
    → stage (Dispatch.start now x) ≡ 2
unfolding stage is_sending is_data_started
started_stage now job token x h = ground arith

module _ (host : Host) where
  start_data-ok :
      (now : ℕ) (job token : String) (production : Bool) (db d : Db)
      → start_data host now job token production db ≡ ok d
      → (exists (startable job token) db.attempts ≡ true)
        × (d.attempts ≡ update_where (startable job token) (Dispatch.start now) db.attempts)
  unfolding start_data
  start_data-ok now job token production db d h =
      elim (Result-cases (checks host now production (find (job_is job) db.attempts) db)) [
        | inr (e, q) ↦ absurd (ground arith)
        | inl (u, q) ↦
            let e =
              attempts-record_delivery_event host job "run_delivery_data_started" now none
                (record db {
                  attempts = update_where (startable job token) (Dispatch.start now) db.attempts;
                }) in
            ground arith
      ]

  -- the one row of the job that start_data changes
  start_data-row :
      (now : ℕ) (job token : String) (production : Bool) (db d : Db)
      → IsSound db.attempts
      → start_data host now job token production db ≡ ok d
      → (a : Attempt) × (find (job_is job) db.attempts ≡ some a)
        × (startable job token a ≡ true)
        × (find (job_is job) d.attempts ≡ some (Dispatch.start now a))
  start_data-row now job token production db d s h =
      let (t, e) = start_data-ok now job token production db d h in
      let (y, q) = exists-find (startable job token) db.attempts t in
      let (a, found) = exists-find (job_is job) db.attempts (
        found-exists (startable job token) (job_is job) db.attempts q
          (named y (find_holds (startable job token) db.attempts q))) in
      let young =
        exists_unique (job_is job) (startable job token) db.attempts a
          (find_unique (job_is job) db.attempts a (s.one_job job) found) named t in
      (
        a,
        found,
        young,
        ap (find (job_is job)) e
            ∙ find-update_where (job_is job) (startable job token) (Dispatch.start now) db.attempts
                (λ x. refl)
            ∙ ap (Option.map (changed (startable job token) (Dispatch.start now))) found
            ∙ ap some (turned a young),
      )
    where
      named : (x : Attempt) → startable job token x ≡ true → job_is job x ≡ true
      named x t = ground arith

      turned :
          (x : Attempt)
          → startable job token x ≡ true
          → changed (startable job token) (Dispatch.start now) x ≡ Dispatch.start now x
      turned x t = rw t refl

  -- an operation that starts DATA takes the job from stage 1 to stage 2
  did_start-row :
      (op : Op) (job : String) (db : Db)
      → IsSound db.attempts
      → did_start host op db job ≡ true
      → (a : Attempt) × (b : Attempt) × (find (job_is job) db.attempts ≡ some a)
        × (stage a ≡ 1)
        × (find (job_is job) (step host op db).attempts ≡ some b)
        × (stage b ≡ 2)
  unfolding did_start step
  did_start-row (start now j token production) job db s t =
      elim (Result-cases (start_data host now j token production db)) [
        | inr (e, q) ↦ absurd (failed q)
        | inl (d, q) ↦
            let (a, found, young, after) = start_data-row now j token production db d s q in
            let e = same (j == job) _ t in
            rw (q, ← (eq_iff j job).0 e)
              (
                a,
                Dispatch.start now a,
                found,
                startable-stage j token a young,
                after,
                started_stage now j token a young,
              )
      ]
    where
      failed : {e : Error} → start_data host now j token production db ≡ err e → ⊥
      failed q = ground arith

      same : (b c : Bool) → (b && c) ≡ true → b ≡ true
      same b c q = ground arith
  did_start-row (enqueue_message now m) job db s t = absurd (ground arith)
  did_start-row (claim_job now token pid j future) job db s t = absurd (ground arith)
  did_start-row (stage_recorded now j token x) job db s t = absurd (ground arith)
  did_start-row (finish_job now fresh j token o policy) job db s t = absurd (ground arith)
  did_start-row (retry_job now fresh j call) job db s t = absurd (ground arith)
  did_start-row (recover now gone) job db s t = absurd (ground arith)
  did_start-row (cancel_run now run_id) job db s t = absurd (ground arith)

  -- no operation starts DATA on a job that is past it
  data_starts-begun :
      (job : String) (a : Attempt) (ops : List Op) (db : Db)
      → IsSound db.attempts
      → Reached job a db.attempts
      → 2 ≤ stage a
      → data_starts host job ops db ≡ 0
  unfolding data_starts
  data_starts-begun job a [] db s h far = refl
  data_starts-begun job a (op ∷ ops) db s h far = elim (Bool-cases (did_start host op db job)) [
    | inl t ↦ absurd (too_far (did_start-row op job db s t))
    | inr n ↦ rw n (
        omega (
          arith,
          data_starts-begun job a ops (step host op db) (step-IsSound host op db s)
              (step-Reached host job a op db s h) far,
        ))
  ]
    where
      row_of : {u v : Attempt} → some u ≡ some v → u ≡ v
      row_of q = cc

      too_far :
          ((x : Attempt) × (y : Attempt) × (find (job_is job) db.attempts ≡ some x)
            × (stage x ≡ 1)
            × (find (job_is job) (step host op db).attempts ≡ some y)
            × (stage y ≡ 2))
          → ⊥
      too_far (x, y, p, one, q, two) =
          let (b, found, along) = h in
          let same = row_of (sym found ∙ p) in ground (arith, along.onward, same, one, far)

  -- From a sound table, any sequence of the queue's operations starts DATA at most once on a
  -- job.
  pub data_once :
      (job : String) (ops : List Op) (db : Db)
      → IsSound db.attempts
      → data_starts host job ops db ≤ 1
  unfolding data_starts
  data_once job [] db s = omega arith
  data_once job (op ∷ ops) db s = elim (Bool-cases (did_start host op db job)) [
    | inr n ↦ rw n (omega (arith, data_once job ops (step host op db) (step-IsSound host op db s)))
    | inl t ↦
        let (a, b, p, one, q, two) = did_start-row op job db s t in
        let none_left =
          data_starts-begun job b ops (step host op db) (step-IsSound host op db s)
            (
              b,
              q,
              record { handoff = refl; number = refl; onward = omega arith; final = λ q. refl },
            )
            (omega (arith, two)) in
        rw (t, none_left) (omega arith)
  ]

  Unbegun-steps :
      (job : String) (ops : List Op) (db : Db)
      → IsSound db.attempts
      → data_starts host job ops db ≡ 0
      → Unbegun job db.attempts
      → Unbegun job (steps host ops db).attempts
  unfolding data_starts steps
  Unbegun-steps job [] db s idle h = h
  Unbegun-steps job (op ∷ ops) db s idle h = elim (Bool-cases (did_start host op db job)) [
    | inl t ↦ absurd (ground (arith, t, idle))
    | inr n ↦
        Unbegun-steps job ops (step host op db) (step-IsSound host op db s)
          (ground (arith, n, idle))
          (Moves_induction (did_start host op db) {P = Unbegun job}
            (λ us vs m u. Move-Unbegun job (did_start host op db) us vs n m u)
            (step-Moves host op db s) h)
  ]

  accepted_begun : (b : Attempt) → b.status ≡ AttemptStatus.smtp_accepted → begun b ≡ true
  unfolding begun is_accepted
  accepted_begun b e = rw e refl

  -- From a sound table in which DATA has not begun on a job and the job is not accepted, a
  -- sequence of the queue's operations after which the job is accepted has started DATA on it,
  -- exactly once.
  pub accepted_started :
      (job : String) (ops : List Op) (db : Db) (b : Attempt)
      → IsSound db.attempts
      → Unbegun job db.attempts
      → find (job_is job) (steps host ops db).attempts ≡ some b
      → b.status ≡ AttemptStatus.smtp_accepted
      → data_starts host job ops db ≡ 1
  accepted_started job ops db b s h found accepted =
      elim (Bool-cases (eqb (data_starts host job ops db) 0)) [
        | inr n ↦ ground (arith, data_once job ops db s, n)
        | inl t ↦
            let e = accepted_begun b accepted in
            absurd (ground (arith, Unbegun-steps job ops db s (ground arith) h b found, e))
      ]
