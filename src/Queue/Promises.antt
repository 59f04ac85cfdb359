-- ===== src/Queue/Promises.antt =====
-- What SmtpQueue promises of every sequence of its operations.

use research_ops_automation.Base.{
  String, true, eq_refl, ◌≡◌, refl, sym, ◌∙◌, some, List, [], ◌∷◌, find, All, arith, found_unique,
}
use research_ops_automation.Base.Host.{Host}
use research_ops_automation.Domain.{AttemptStatus, Attempt, Db}
use research_ops_automation.Delivery.Rows.{job_is, is_live}
use research_ops_automation.Queue.Moves.{stage, live_for, Moves_induction}
use research_ops_automation.Queue.Invariant.{IsSound}
use research_ops_automation.Queue.Stages.{Reached, Move-Reached}
use research_ops_automation.Queue.Steps.{Op, step, steps, did_start}
use research_ops_automation.Queue.History.{step-Moves, Moves-IsSound}

module _ (host : Host) where
  pub step-IsSound : (op : Op) (db : Db) → IsSound db.attempts → IsSound (step host op db).attempts
  step-IsSound op db s =
      Moves-IsSound (did_start host op db) db.attempts (step host op db).attempts
        (step-Moves host op db s) s

  -- Every sequence of the queue's operations keeps a table sound: a job is one row at most, a
  -- handoff has at most one row that is queued, being sent or accepted, a handoff with attempts
  -- has a first one, and no queued row has begun DATA.
  pub steps-IsSound :
      (ops : List Op) (db : Db) → IsSound db.attempts → IsSound (steps host ops db).attempts
  unfolding steps
  steps-IsSound [] db s = s
  steps-IsSound (op ∷ ops) db s = steps-IsSound ops (step host op db) (step-IsSound op db s)

  pub step-Reached :
      (job : String) (a : Attempt) (op : Op) (db : Db)
      → IsSound db.attempts
      → Reached job a db.attempts
      → Reached job a (step host op db).attempts
  step-Reached job a op db s h =
      Moves_induction (did_start host op db) {P = Reached job a}
        (Move-Reached job a (did_start host op db)) (step-Moves host op db s) h

  steps-Reached :
      (job : String) (a : Attempt) (ops : List Op) (db : Db)
      → IsSound db.attempts
      → Reached job a db.attempts
      → Reached job a (steps host ops db).attempts
  unfolding steps
  steps-Reached job a [] db s h = h
  steps-Reached job a (op ∷ ops) db s h =
      steps-Reached job a ops (step host op db) (step-IsSound op db s)
        (step-Reached job a op db s h)

  -- In a sound table, an attempt of a handoff that the server has accepted is still in the table
  -- and accepted after any sequence of the queue's operations, and it is the only row of that
  -- handoff that is queued, being sent or accepted.
  pub accepted_forever :
      (job h : String) (a : Attempt) (ops : List Op) (db : Db)
      → IsSound db.attempts
      → find (job_is job) db.attempts ≡ some a
      → a.status ≡ AttemptStatus.smtp_accepted
      → a.handoff_id ≡ some h
      → (b : Attempt) × (find (job_is job) (steps host ops db).attempts ≡ some b)
        × (b.status ≡ AttemptStatus.smtp_accepted)
        × All (λ x. live_for h x ≡ true → x ≡ b) (steps host ops db).attempts
  unfolding stage is_live
  accepted_forever job h a ops db s found accepted owner =
      let (b, here, along) = steps-Reached job a ops db s (
        a,
        found,
        record { handoff = refl; number = refl; onward = omega arith; final = λ q. refl },
      ) in
      let same = along.final (over a accepted) ∙ accepted in
      let all =
        found_unique (job_is job) (live_for h) (steps host ops db).attempts b
          ((steps-IsSound ops db s).one_live h) here (still b same (sym along.handoff ∙ owner)) in
      (b, here, same, all)
    where
      over : (x : Attempt) → x.status ≡ AttemptStatus.smtp_accepted → stage x ≡ 3
      over x e = ground arith

      still :
          (x : Attempt)
          → x.status ≡ AttemptStatus.smtp_accepted
          → x.handoff_id ≡ some h
          → live_for h x ≡ true
      still x e o = rw (o, e) (rw (eq_refl h) refl)
