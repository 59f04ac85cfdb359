-- ===== src/Queue/Outcomes.antt =====
-- What SmtpQueue.finish does to smtp_attempts: the row ends, and a retry may follow.

use research_ops_automation.Base.{
  ℕ, ◌+◌, String, Bool, true, false, leb, eq_iff, eq_refl, if◌then◌else◌, Bool-cases, Option-cases,
  Result-cases, not_found, auth_required, authentication, authorization, rate_limit, ◌≡◌, refl, sym,
  ap, ◌∙◌, Option, none, some, List, find, exists, update_where, All-map, is_some, Result, ok, err,
  delivery, integrity, crash, validation, concurrency, arith, inl, inr, ◌⊎◌, found-exists,
  find_holds, find_unique, exists-update_where,
}
use research_ops_automation.Base.Host.{Host}
use research_ops_automation.Domain.{Attempt, Handoff, Receipt, Db}
use research_ops_automation.Runs.Rows.{controls_are}
use research_ops_automation.Runs.Claim.{seconds}
use research_ops_automation.Delivery.Rows.{
  handoff_is, is_alert, job_is, for_handoff, is_live, is_queued, is_sending, is_accepted,
  is_data_started,
}
use research_ops_automation.Delivery.Timeline.{add_audit}
use research_ops_automation.Delivery.Reported.{commit_reported}
use research_ops_automation.Queue.Report.{
  Outcome, RetryPolicy, is_result, finishable, finished_attempt, check_finish,
}
use research_ops_automation.Queue.Receipts.{
  prior_uncertain, settle_message, insert_receipt, finish_event, receipt_for, received,
}
use research_ops_automation.Queue.AutoRetry.{
  keep_outcome, schedule_retry, auto_retry, auto_retry_allowed, first_attempt, retry_due,
}
use research_ops_automation.Queue.Finish.{finish_handoff, finish}
use research_ops_automation.Queue.Moves.{
  misplaced, stage, begun, Quiet, Move, Moves, quiet, none_made, Moves-append,
}
use research_ops_automation.Queue.Invariant.{IsSound}
use research_ops_automation.Queue.Attempts.{attempts-record_delivery_event, one_move}
use research_ops_automation.Queue.Renewals.{insert_retry-Moves}

-- a row that is sent may end in any outcome that check_finish lets pass
ended-Quiet :
    (now : ℕ) (token : String) (o : Outcome) (row : Attempt)
    → is_result o.status ≡ true
    → check_finish token o row ≡ ok tt
    → Quiet row (finished_attempt now o row)
unfolding check_finish is_result stage begun misplaced is_queued is_live is_sending is_accepted
    is_data_started
ended-Quiet now token o row r c = record {
  same = record {
    job = refl;
    handoff = refl;
    number = refl;
    onward = ground arith;
    final = λ q. ground arith;
    placed = λ m. ground arith;
    alive = λ a. ground arith;
  };
  unbegun = λ b. ground arith;
}

-- the rows that finish ends are one row
ended-Move :
    (may : String → Bool) (now : ℕ) (job token : String) (o : Outcome) (row : Attempt)
    (xs : List Attempt)
    → IsSound xs
    → is_result o.status ≡ true
    → find (job_is job) xs ≡ some row
    → check_finish token o row ≡ ok tt
    → Move may xs (update_where (finishable job token) (finished_attempt now o) xs)
ended-Move may now job token o row xs h r e c =
    quiet (finishable job token) (finished_attempt now o) (
      All-map xs (λ x same t. rw (same (named x t)) (ended-Quiet now token o row r c))
        (find_unique (job_is job) xs row (h.one_job job) e))
  where
    named : (x : Attempt) → finishable job token x ≡ true → job_is job x ≡ true
    named x t = ground arith

module _ (host : Host) where
  attempts-commit_reported :
      (h : Handoff) (now : ℕ) (db : Db) → (commit_reported host h now db).attempts ≡ db.attempts
  unfolding commit_reported
  attempts-commit_reported h now db = ground arith

  attempts-settle_message :
      (now : ℕ) (job : String) (o : Outcome) (row : Attempt) (h : Handoff) (db : Db)
      → (settle_message host now job o row h db).attempts ≡ db.attempts
  unfolding settle_message
  attempts-settle_message now job o row h db =
      attempts-record_delivery_event host job "run_step_finished" now _ _
      ∙ reported (is_accepted o.status) _
    where
      reported :
          (b : Bool) (x : Db)
          → (if b then commit_reported host h now x else x).attempts ≡ x.attempts
      reported true x = attempts-commit_reported h now x
      reported false x = refl

  kept_or_renewed :
      (now : ℕ) (job id : String) (db d : Db) (r : Result Db)
      → keep_outcome host now job id db r ≡ ok d
      → (r ≡ ok d) ⊎ (d.attempts ≡ db.attempts)
  unfolding keep_outcome add_audit
  kept_or_renewed now job id db d (ok x) h = inl h
  kept_or_renewed now job id db d (err (delivery m)) h = inr (ground arith)
  kept_or_renewed now job id db d (err integrity) h = inr (ground arith)
  kept_or_renewed now job id db d (err (validation m)) h = absurd (ground arith)
  kept_or_renewed now job id db d (err (concurrency m)) h = absurd (ground arith)
  kept_or_renewed now job id db d (err (not_found m)) h = absurd (ground arith)
  kept_or_renewed now job id db d (err (auth_required m)) h = absurd (ground arith)
  kept_or_renewed now job id db d (err (authentication m)) h = absurd (ground arith)
  kept_or_renewed now job id db d (err (authorization m)) h = absurd (ground arith)
  kept_or_renewed now job id db d (err (rate_limit m)) h = absurd (ground arith)
  kept_or_renewed now job id db d (err crash) h = absurd (ground arith)

  -- a retry that is scheduled, with the handoff's row
  scheduled-Moves :
      (may : String → Bool) (now : ℕ) (fresh job : String) (row : Attempt) (id : String)
      (policy : RetryPolicy) (a : Option Attempt) (db d : Db)
      → row.handoff_id ≡ some id
      → exists (for_handoff id) db.attempts ≡ true
      → schedule_retry host now fresh job row id policy a db ≡ ok d
      → Moves may db.attempts d.attempts
  unfolding schedule_retry
  scheduled-Moves may now fresh job row id policy none db d owner parent h = absurd (ground arith)
  scheduled-Moves may now fresh job row id policy (some a) db d owner parent h =
      elim (Bool-cases (
        leb (retry_due host now policy row)
          (a.created_at + seconds policy.smtp_retry_expiry_seconds))) [
            | inr late ↦ rw (same late) none_made
            | inl due ↦ elim (kept_or_renewed now job id db d _ (rw due at h)) [
              | inl q ↦ insert_retry-Moves host now fresh may row id _ _ _ db d owner parent q
              | inr e ↦ rw e none_made
            ]
          ]
    where
      same :
          leb
              (retry_due host now policy row)
              (a.created_at + seconds policy.smtp_retry_expiry_seconds)
            ≡ false
          → d.attempts ≡ db.attempts
      same late = ground arith

  auto_retry-Moves :
      (may : String → Bool) (now : ℕ) (fresh job : String) (o : Outcome) (row : Attempt)
      (x : Handoff) (policy : Option RetryPolicy) (db d : Db)
      → row.handoff_id ≡ some x.handoff_id
      → exists (for_handoff x.handoff_id) db.attempts ≡ true
      → auto_retry host now fresh job o row x policy db ≡ ok d
      → Moves may db.attempts d.attempts
  unfolding auto_retry
  auto_retry-Moves may now fresh job o row x none db d owner parent h = rw (same h) none_made
    where
      same : {u v : Db} → ok u ≡ ok v → v.attempts ≡ u.attempts
      same q = cc
  auto_retry-Moves may now fresh job o row x (some policy) db d owner parent h =
      elim (Bool-cases (
        auto_retry_allowed o policy x (is_some (prior_uncertain x.handoff_id job db)) row
          (find (controls_are x.run_id) db.controls))) [
            | inl t ↦
                scheduled-Moves may now fresh job row x.handoff_id policy
                  (first_attempt x.handoff_id db.attempts) db d owner parent (rw t at h)
            | inr n ↦ rw (same (rw n at h)) none_made
          ]
    where
      same : {u v : Db} → ok u ≡ ok v → v.attempts ≡ u.attempts
      same q = cc

  attempts-insert_receipt :
      (r : Receipt) (db d : Db) → insert_receipt host r db ≡ ok d → d.attempts ≡ db.attempts
  unfolding insert_receipt
  attempts-insert_receipt r db d h = ground arith

  -- the tables before the queue considers a retry
  abbrev settled : ℕ → String → Outcome → Attempt → Handoff → Db → Db
  settled now job o row x db =
      let receipt = receipt_for host now job o row x in
      let received' = record db {
        handoffs = update_where (handoff_is x.handoff_id) (received host o receipt) db.handoffs;
      } in
      finish_event host now job o row x
        (if is_alert x then received' else settle_message host now job o row x received')

  attempts-settled :
      (now : ℕ) (job : String) (o : Outcome) (row : Attempt) (x : Handoff) (db : Db)
      → (settled now job o row x db).attempts ≡ db.attempts
  unfolding add_audit
  attempts-settled now job o row x db = either (is_alert x) _
    where
      either :
          (b : Bool) (y : Db)
          → (if b then y else settle_message host now job o row x y).attempts ≡ y.attempts
      either true y = refl
      either false y = attempts-settle_message now job o row x y

  finish_handoff-Moves :
      (may : String → Bool) (now : ℕ) (fresh job : String) (o : Outcome) (row : Attempt)
      (policy : Option RetryPolicy) (x : Handoff) (db d : Db)
      → row.handoff_id ≡ some x.handoff_id
      → exists (for_handoff x.handoff_id) db.attempts ≡ true
      → finish_handoff host now fresh job o row policy x db ≡ ok d
      → Moves may db.attempts d.attempts
  unfolding finish_handoff
  finish_handoff-Moves may now fresh job o row policy x db d owner parent h =
      elim (Result-cases (insert_receipt host (receipt_for host now job o row x) db)) [
        | inr (e, q) ↦ absurd (ground arith)
        | inl (db₁, q) ↦
            let same =
              attempts-settled now job o row x db₁
              ∙ attempts-insert_receipt (receipt_for host now job o row x) db db₁ q in
            rw same at (
              auto_retry-Moves may now fresh job o row x policy (settled now job o row x db₁) d
                owner (rw same parent) (rw q at h))
      ]

  -- what finish does after it has ended the row that it found
  pub after_end-Moves :
      (may : String → Bool) (now : ℕ) (fresh job token : String) (o : Outcome)
      (policy : Option RetryPolicy) (row : Attempt) (db d : Db)
      → is_result o.status ≡ true
      → find (job_is job) db.attempts ≡ some row
      → check_finish token o row ≡ ok tt
      → finish host now fresh job token o policy db ≡ ok d
      → Moves may
          (update_where (finishable job token) (finished_attempt now o) db.attempts)
          d.attempts
  unfolding finish
  after_end-Moves may now fresh job token o policy row db d r e c h =
      let ys = update_where (finishable job token) (finished_attempt now o) db.attempts in
      elim (Option-cases row.handoff_id) [
        | inl n ↦ let same : d.attempts ≡ ys = ground arith in rw same none_made
        | inr (id, owner) ↦ elim (Option-cases (find (handoff_is id) db.handoffs)) [
          | inl n ↦ absurd (ground arith)
          | inr (x, q) ↦
              let named = (eq_iff x.handoff_id id).0 (find_holds (handoff_is id) db.handoffs q) in
              let rest : finish_handoff host now fresh job o row policy x
                    (record db { attempts = ys })
                  ≡ ok d =
                ground arith in
              finish_handoff-Moves may now fresh job o row policy x (record db { attempts = ys }) d
                (owner ∙ ap some (sym named)) (parent id x named owner) rest
        ]
      ]
    where
      parent :
          (id : String) (x : Handoff)
          → x.handoff_id ≡ id
          → row.handoff_id ≡ some id
          → exists
              (for_handoff x.handoff_id)
              (update_where (finishable job token) (finished_attempt now o) db.attempts)
            ≡ true
      parent id x named owner =
          exists-update_where (for_handoff x.handoff_id) (finishable job token)
            (finished_attempt now o) db.attempts (λ y. refl)
          ∙ found-exists (job_is job) (for_handoff x.handoff_id) db.attempts e
              (rw (owner, named) (eq_refl id))

  -- the row that finish has found, its owner's, which passes the checks
  pub finish_row :
      (now : ℕ) (fresh job token : String) (o : Outcome) (policy : Option RetryPolicy) (db d : Db)
      → finish host now fresh job token o policy db ≡ ok d
      → (row : Attempt) × (is_result o.status ≡ true)
        × (find (job_is job) db.attempts ≡ some row)
        × (check_finish token o row ≡ ok tt)
  unfolding finish
  finish_row now fresh job token o policy db d h = elim (Bool-cases (is_result o.status)) [
    | inr n ↦ absurd (ground arith)
    | inl r ↦ elim (Option-cases (find (job_is job) db.attempts)) [
      | inl n ↦ absurd (ground arith)
      | inr (row, e) ↦ elim (Result-cases (check_finish token o row)) [
        | inr (x, q) ↦ absurd (ground arith)
        | inl (u, q) ↦ (row, r, e, q)
      ]
    ]
  ]

  pub finish-Moves :
      (may : String → Bool) (now : ℕ) (fresh job token : String) (o : Outcome)
      (policy : Option RetryPolicy) (db d : Db)
      → IsSound db.attempts
      → finish host now fresh job token o policy db ≡ ok d
      → Moves may db.attempts d.attempts
  finish-Moves may now fresh job token o policy db d s h =
      let (row, r, e, c) = finish_row now fresh job token o policy db d h in
      Moves-append (one_move (ended-Move may now job token o row db.attempts s r e c))
        (after_end-Moves may now fresh job token o policy row db d r e c h)
