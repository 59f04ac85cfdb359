-- ===== src/Queue/History.antt =====
-- Every operation of the queue, recovery and cancellation included, as a sequence of moves of smtp_attempts.

use research_ops_automation.Base.{
  ℕ, String, Bool, true, ◌&&◌, ◌==◌, eq_refl, Bool-cases, Result-cases, ◌≡◌, refl, ◌∙◌, none, some,
  List, [], ◌∷◌, exists, select, All-always, arith, inl, inr,
}
use research_ops_automation.Base.Host.{Host}
use research_ops_automation.Domain.{Attempt, Db}
use research_ops_automation.Delivery.Rows.{
  is_live, is_queued, is_sending, is_accepted, is_data_started,
}
use research_ops_automation.Queue.Finish.{finish}
use research_ops_automation.Queue.Recovery.{
  interrupted, owner_gone, token_text, recover_rows, recover_interrupted, record_cancelled,
  cancel_pending_for_run, restore_uncertain, cancelled_attempt, cancel_target, cancel_requested_for,
  message_for_run,
}
use research_ops_automation.Queue.Moves.{
  misplaced, stage, begun, Quiet, Moves, quiet, none_made, Moves-append, Moves_induction,
}
use research_ops_automation.Queue.Invariant.{IsSound, Move-IsSound}
use research_ops_automation.Queue.Attempts.{
  attempts-record_delivery_event, one_move, settle-Moves, claim-Moves, start_data-Moves,
  record_stage-Moves, enqueue-Moves,
}
use research_ops_automation.Queue.Renewals.{retry-Moves}
use research_ops_automation.Queue.Outcomes.{finish-Moves}
use research_ops_automation.Queue.Steps.{
  Op, enqueue_message, claim_job, start, stage_recorded, finish_job, retry_job, recover, cancel_run,
  step, did_start,
}

pub Moves-IsSound :
    (may : String → Bool) (xs ys : List Attempt) → Moves may xs ys → IsSound xs → IsSound ys
Moves-IsSound may xs ys m h = Moves_induction may {P = IsSound} (Move-IsSound may) m h

module _ (host : Host) (may : String → Bool) where
  recover_rows-Moves :
      (now : ℕ) (gone : ℕ → Bool) (rows : List Attempt) (db : Db)
      → IsSound db.attempts
      → Moves may db.attempts (recover_rows host now gone rows db).1.attempts
  unfolding recover_rows
  recover_rows-Moves now gone [] db s = none_made
  recover_rows-Moves now gone (a ∷ rows) db s = elim (Bool-cases (owner_gone gone a)) [
    | inr n ↦ rw (n, recover_rows) (recover_rows-Moves now gone rows db s)
    | inl t ↦
        elim (Result-cases
          (finish host now "" a.job_id (token_text a.claim_token) (interrupted a) none db)) [
            | inr (e, q) ↦ rw (t, q, recover_rows) none_made
            | inl (d, q) ↦
                let m =
                  finish-Moves host may now "" a.job_id (token_text a.claim_token) (interrupted a)
                    none db d s q in
                rw (t, q, recover_rows)
                  (Moves-append m (
                    recover_rows-Moves now gone rows d
                      (Moves-IsSound may db.attempts d.attempts m s)))
          ]
  ]

module _ (host : Host) where
  pub attempts-record_cancelled :
      (now : ℕ) (rows : List Attempt) (db : Db)
      → (record_cancelled host now rows db).attempts ≡ db.attempts
  unfolding record_cancelled
  attempts-record_cancelled now [] db = refl
  attempts-record_cancelled now (a ∷ rows) db =
      attempts-record_cancelled now rows _
      ∙ attempts-record_delivery_event host a.job_id "run_step_finished" now (some "cancelled") db

pub attempts-restore_uncertain :
    (run_id : String) (db : Db) → (restore_uncertain run_id db).attempts ≡ db.attempts
unfolding restore_uncertain
attempts-restore_uncertain run_id db = ground arith

-- a queued row that is cancelled
cancelled-Quiet :
    (now : ℕ) (b : Bool) (x : Attempt)
    → (b && is_queued x.status) ≡ true
    → Quiet x (cancelled_attempt now x)
unfolding stage begun misplaced is_queued is_live is_sending is_accepted is_data_started
cancelled-Quiet now b x t = record {
  same = record {
    job = refl;
    handoff = refl;
    number = refl;
    onward = ground arith;
    final = λ q. ground arith;
    placed = λ m. ground arith;
    alive = λ a. ground arith;
  };
  unbegun = λ h. ground arith;
}

module _ (host : Host) (may : String → Bool) where
  cancel-Moves :
      (now : ℕ) (run_id : String) (db : Db)
      → Moves may db.attempts (cancel_pending_for_run host now run_id db).1.attempts
  unfolding cancel_pending_for_run
  cancel-Moves now run_id db =
      elim (Bool-cases (
        exists (λ (a : Attempt). message_for_run run_id db.handoffs a && is_sending a.status)
          db.attempts)) [
            | inl t ↦ rw (t, cancel_pending_for_run) none_made
            | inr f ↦
                elim (Bool-cases
                  (exists (cancel_target run_id) db.runs && cancel_requested_for run_id db)) [
                    | inr n ↦ rw (f, n, cancel_pending_for_run) none_made
                    | inl c ↦
                        rw (f, c, cancel_pending_for_run)
                          (rw (attempts-record_cancelled host now, attempts-restore_uncertain)
                            (one_move (
                              quiet
                                (λ (a : Attempt).
                                  message_for_run run_id db.handoffs a && is_queued a.status)
                                (cancelled_attempt now)
                                (All-always _ db.attempts (λ x t.
                                  cancelled-Quiet now (message_for_run run_id db.handoffs x) x
                                    t)))))
                  ]
          ]

recovered-Moves :
    (host : Host) (may : String → Bool) (now : ℕ) (gone : ℕ → Bool) (db : Db)
    → IsSound db.attempts
    → Moves may db.attempts (recover_interrupted host now gone db).1.attempts
unfolding recover_interrupted
recovered-Moves host may now gone db s =
    recover_rows-Moves host may now gone (select (λ a. is_sending a.status) db.attempts) db s

-- an operation of the queue, in which DATA may be started where the operation starts it
pub step-Moves :
    (host : Host) (op : Op) (db : Db)
    → IsSound db.attempts
    → Moves (did_start host op db) db.attempts (step host op db).attempts
unfolding step did_start
step-Moves host (enqueue_message now m) db s = enqueue-Moves host _ now m db
step-Moves host (claim_job now token pid job future) db s =
    claim-Moves host _ now token pid job future db s
step-Moves host (start now job token production) db s =
    start_data-Moves host (did_start host (start now job token production) db) now job token
      production db (λ t. rw t (eq_true job))
  where
    eq_true : (k : String) → ((k == k) && true) ≡ true
    eq_true k = rw (eq_refl k) refl
step-Moves host (stage_recorded now job token j) db s = record_stage-Moves _ now job token j db
step-Moves host (finish_job now fresh job token o policy) db s =
    settle-Moves _ db (finish host now fresh job token o policy db)
      (λ d q. finish-Moves host _ now fresh job token o policy db d s q)
step-Moves host (retry_job now fresh job call) db s = retry-Moves host now fresh _ job call db
step-Moves host (recover now gone) db s = recovered-Moves host _ now gone db s
step-Moves host (cancel_run now run_id) db s = cancel-Moves host _ now run_id db
