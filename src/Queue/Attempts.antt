-- ===== src/Queue/Attempts.antt =====
-- What each operation of the queue does to smtp_attempts is a sequence of moves.

use research_ops_automation.Base.{
  ℕ, String, Bool, true, false, Bool-cases, Option-cases, Result-cases, ◌≡◌, refl, Option, none,
  some, List, [], ◌∷◌, ◌++◌, find, exists, count_where, ltb, update_where, All-always, All-map,
  Result, ok, err, arith, inl, inr, is_ok,
}
use research_ops_automation.Base.Host.{Host}
use research_ops_automation.Base.Json.{Json}
use research_ops_automation.Domain.{Run, Attempt, Db}
use research_ops_automation.Runs.Steps.{settle}
use research_ops_automation.Delivery.Rows.{
  job_is, is_queued, is_sending, is_accepted, is_live, is_prepared, is_data_started,
}
use research_ops_automation.Delivery.Timeline.{
  record_delivery_event, record_for, run_of, message_of, add_audit,
}
use research_ops_automation.Queue.Insert.{
  Message, enqueue, insert_message, confirm_message, insert_attempt, queued_attempt, clashes,
}
use research_ops_automation.Queue.Dispatch.{
  claim, claimable, send_by, owned, startable, start, checks, start_data, record_stage,
}
use research_ops_automation.Queue.Moves.{
  misplaced, stage, begun, SameRow, Quiet, Move, Moves, quiet, starts, first, none_made, then_one,
}
use research_ops_automation.Queue.Invariant.{IsSound}

module _ (host : Host) where
  attempts-record_for :
      (job event : String) (now : ℕ) (state : Option String) (db : Db) (a : Attempt)
      (o : Option Run)
      → (record_for host job event now state db a o).attempts ≡ db.attempts
  unfolding record_for add_audit
  attempts-record_for job event now state db a none = refl
  attempts-record_for job event now state db a (some r) = refl

  pub attempts-record_delivery_event :
      (job event : String) (now : ℕ) (state : Option String) (db : Db)
      → (record_delivery_event host job event now state db).attempts ≡ db.attempts
  unfolding record_delivery_event
  attempts-record_delivery_event job event now state db =
      elim (Option-cases (find (job_is job) db.attempts)) [
        | inl n ↦ rw (n, record_delivery_event) refl
        | inr (a, e) ↦
            rw (e, record_delivery_event)
              (attempts-record_for job event now state db a (run_of (message_of a db) db))
      ]

module _ {may : String → Bool} where
  pub one_move : {xs ys : List Attempt} → Move may xs ys → Moves may xs ys
  one_move m = then_one none_made m

-- a queued row that is made a row being sent
claim-Quiet :
    (now : ℕ) (token : String) (pid : ℕ) (job : String) (future : Bool) (x : Attempt)
    → misplaced x ≡ false
    → claimable now job future x ≡ true
    → Quiet x (send_by now token pid x)
unfolding stage begun misplaced is_queued is_live is_sending is_accepted
claim-Quiet now token pid job future x n h = record {
  same = record {
    job = refl;
    handoff = refl;
    number = refl;
    onward = ground arith;
    final = λ q. ground arith;
    placed = λ m. ground arith;
    alive = λ _. ground arith;
  };
  unbegun = λ b. ground arith;
}

pub claim-Moves :
    (host : Host) (may : String → Bool) (now : ℕ) (token : String) (pid : ℕ) (job : String)
    (future : Bool) (db : Db)
    → IsSound db.attempts
    → Moves may db.attempts (claim host now token pid job future db).1.attempts
unfolding claim
claim-Moves host may now token pid job future db h =
    elim (Bool-cases (exists (claimable now job future) db.attempts)) [
      | inr n ↦ rw (n, claim) none_made
      | inl t ↦
          elim (Bool-cases (
            ltb 1 (
              count_where (λ (a : Attempt). is_sending a.status)
                (update_where (claimable now job future) (send_by now token pid) db.attempts)))) [
                  | inl busy ↦ rw (t, busy, claim) none_made
                  | inr free ↦
                      rw (t, free, claim)
                        (rw attempts-record_delivery_event (
                          one_move (
                            quiet (claimable now job future) (send_by now token pid) (
                              All-map db.attempts (λ x n. claim-Quiet now token pid job future x n)
                                h.orderly))))
                ]
    ]

started-SameRow :
    (now : ℕ) (job token : String) (x : Attempt)
    → startable job token x ≡ true
    → SameRow x (start now x)
unfolding stage misplaced is_queued is_live is_sending is_prepared is_data_started
started-SameRow now job token x h = record {
  job = refl;
  handoff = refl;
  number = refl;
  onward = ground arith;
  final = λ q. ground arith;
  placed = λ m. ground arith;
  alive = λ a. ground arith;
}

startable-job :
    (job token : String) (x : Attempt) → startable job token x ≡ true → job_is job x ≡ true
startable-job job token x h = ground arith

pub start_data-Moves :
    (host : Host) (may : String → Bool) (now : ℕ) (job token : String) (production : Bool) (db : Db)
    → (is_ok (start_data host now job token production db) ≡ true → may job ≡ true)
    → Moves may db.attempts (settle db (start_data host now job token production db)).attempts
unfolding start_data
start_data-Moves host may now job token production db m =
    elim (Result-cases (checks host now production (find (job_is job) db.attempts) db)) [
      | inr (e, q) ↦ rw (q, start_data) none_made
      | inl (u, q) ↦ elim (Bool-cases (exists (startable job token) db.attempts)) [
        | inr n ↦ rw (q, n, start_data) none_made
        | inl t ↦
            rw (q, t, start_data)
              (rw attempts-record_delivery_event (
                one_move (
                  starts job (startable job token) (start now) (m (rw (q, t, start_data) refl))
                    (startable-job job token) (started-SameRow now job token))))
      ]
    ]

noted-Quiet :
    (now : ℕ) (j : Json) (x : Attempt)
    → Quiet x (record x { diagnostics_json = some j; updated_at = now })
unfolding stage begun misplaced
noted-Quiet now j x = record {
  same = record {
    job = refl;
    handoff = refl;
    number = refl;
    onward = omega arith;
    final = λ q. refl;
    placed = λ m. m;
    alive = λ a. a;
  };
  unbegun = λ b. b;
}

pub record_stage-Moves :
    (may : String → Bool) (now : ℕ) (job token : String) (j : Json) (db : Db)
    → Moves may db.attempts (settle db (record_stage now job token j db)).attempts
unfolding record_stage
record_stage-Moves may now job token j db =
    elim (Bool-cases (exists (owned job token) db.attempts)) [
      | inr n ↦ rw (n, record_stage) none_made
      | inl t ↦
          rw (t, record_stage)
            (one_move (
              quiet (owned job token)
                (λ a. record a { diagnostics_json = some j; updated_at = now })
                (All-always _ db.attempts (λ x _. noted-Quiet now j x))))
    ]

pub inserted-Fresh :
    (a : Attempt) (db db' : Db)
    → insert_attempt a db ≡ ok db'
    → (db'.attempts ≡ db.attempts ++ a ∷ []) × (exists (clashes a) db.attempts ≡ false)
unfolding insert_attempt
inserted-Fresh a db db' h = ground arith

-- the checks after the INSERT either raise or leave the table as it is
pub confirm-attempts :
    (host : Host) (now : ℕ) (m : Message) (inserted : Bool) (db d : Db)
    → confirm_message host now m (inserted, db) ≡ ok d
    → d.attempts ≡ db.attempts
unfolding confirm_message
confirm-attempts host now m inserted db d h =
    ground (arith, attempts-record_delivery_event host m.job_id "run_delivery_queued" now none db)

-- a transaction that raises is rolled back, and makes no move
pub settle-Moves :
    (may : String → Bool) (db : Db) (r : Result Db)
    → ((d : Db) → r ≡ ok d → Moves may db.attempts d.attempts)
    → Moves may db.attempts (settle db r).attempts
settle-Moves may db (ok d) h = h d refl
settle-Moves may db (err e) h = none_made

module _ (host : Host) (may : String → Bool) (now : ℕ) (m : Message) where
  new_message :
      (db d : Db)
      → insert_attempt (queued_attempt host now m) db ≡ ok d
      → Move may db.attempts d.attempts
  new_message db d q =
      let (e, clear) = inserted-Fresh (queued_attempt host now m) db d q in
      rw e (
        first (queued_attempt host now m) (record { queued = refl; prepared = refl; clear = clear })
          refl)

  pub enqueue-Moves : (db : Db) → Moves may db.attempts (settle db (enqueue host now m db)).attempts
  unfolding enqueue insert_message
  enqueue-Moves db = elim (Bool-cases (exists (job_is m.job_id) db.attempts)) [
    | inl t ↦
        rw (t, enqueue, insert_message)
          (settle-Moves may db (confirm_message host now m (false, db))
            (λ d c. rw (confirm-attempts host now m false db d c) none_made))
    | inr n ↦ elim (Result-cases (insert_attempt (queued_attempt host now m) db)) [
      | inr (e, q) ↦ rw (n, q, enqueue, insert_message) none_made
      | inl (db₁, q) ↦
          rw (n, q, enqueue, insert_message)
            (settle-Moves may db (confirm_message host now m (true, db₁)) (λ d c.
              rw (confirm-attempts host now m true db₁ d c) (one_move (new_message db db₁ q))))
    ]
  ]
