-- ===== src/Queue/Endings.antt =====
-- What SmtpQueue.finish records, and for whom.

use research_ops_automation.Base.{
  none, List, [], ◌∷◌, ◌==◌, not, ◌&&◌, false, exists, exists-find, ℕ, ◌+◌, ◌≤◌, ◌<◌, String, Bool,
  true, leb, Bool-cases, Option-cases, ◌≡◌, refl, sym, ap, ◌∙◌, Option, some, find, update_where,
  opt_str_eq, is_some, ok, arith, inl, inr, ◌⊎◌, leb→le, find_holds, find-update_where, changed,
}
use mathlib.Core.Option
use Prim.Native.String
use research_ops_automation.Base.Host.{Host}
use research_ops_automation.Domain.{AttemptStatus, AttemptPhase, Attempt, Handoff, Controls, Db}
use research_ops_automation.Runs.Rows.{controls_are}
use research_ops_automation.Runs.Claim.{seconds}
use research_ops_automation.Delivery.Rows.{
  receipt_is, for_handoff, is_uncertain, job_is, is_sending, is_accepted, is_data_started,
}
use research_ops_automation.Queue.Report.{
  Outcome, RetryPolicy, is_result, finishable, finished_attempt, check_finish, is_failed,
}
use research_ops_automation.Queue.Finish.{finish}
use research_ops_automation.Queue.AutoRetry.{
  auto_retry, auto_retry_allowed, schedule_retry, first_attempt, retry_due,
}
use research_ops_automation.Queue.Receipts.{prior_uncertain, newest_uncertain, receipt_id}
use research_ops_automation.Queue.Moves.{stage, Moves_induction}
use research_ops_automation.Queue.Stages.{Reached, Move-Reached}
use research_ops_automation.Queue.Outcomes.{finish_row, after_end-Moves}

-- what the checks of finish ask of the row
checked :
    (token : String) (o : Outcome) (row : Attempt)
    → check_finish token o row ≡ ok tt
    → (row.status ≡ AttemptStatus.sending)
      × (opt_str_eq row.claim_token token ≡ true)
      × (o.status ≡ AttemptStatus.smtp_accepted → row.phase ≡ AttemptPhase.data_started)
unfolding check_finish is_sending is_accepted is_data_started
checked token o row h = (ground arith, ground arith, λ e. ground arith)

ended_stage :
    (now : ℕ) (o : Outcome) (row : Attempt)
    → is_result o.status ≡ true
    → stage (finished_attempt now o row) ≡ 3
unfolding stage is_result
ended_stage now o row r = ground arith

-- another attempt of the handoff whose end is not known, with its receipt
abbrev pub known_unsure : String → String → Db → Attempt → Bool
known_unsure id job db a =
    for_handoff id a
    && is_uncertain a.status
    && not (a.job_id == job)
    && exists (receipt_is (String.◌++◌ "smtp-" a.job_id)) db.receipts

newest-none :
    (id job : String) (db : Db) (rows : List Attempt)
    → newest_uncertain db.receipts id job rows ≡ none
    → exists (known_unsure id job db) rows ≡ false
unfolding newest_uncertain receipt_id exists
newest-none id job db [] h = refl
newest-none id job db (a ∷ rows) h = ground (arith, newest-none id job db rows)

newest-receipt :
    (id job : String) (db : Db) (rows : List Attempt) (a : Attempt)
    → newest_uncertain db.receipts id job rows ≡ some a
    → exists (receipt_is (receipt_id a.job_id)) db.receipts ≡ true
unfolding newest_uncertain
newest-receipt id job db [] a h = absurd (ground arith)
newest-receipt id job db (x ∷ rows) a h =
    elim (Option-cases (newest_uncertain db.receipts id job rows)) [
      | inl n ↦ ground (arith, n)
      | inr (b, e) ↦ ground (arith, e, newest-receipt id job db rows b e)
    ]

none_unsure :
    (id job : String) (db : Db)
    → is_some (prior_uncertain id job db) ≡ false
    → exists (known_unsure id job db) db.attempts ≡ false
unfolding prior_uncertain
none_unsure id job db h = elim (Option-cases (newest_uncertain db.receipts id job db.attempts)) [
  | inl n ↦ newest-none id job db db.attempts n
  | inr (a, e) ↦
      let (r, q) =
        exists-find (receipt_is (receipt_id a.job_id)) db.receipts
          (newest-receipt id job db db.attempts a e) in
      absurd (ground (arith, e, q))
]

module _ (host : Host) where
  -- Where finish succeeds, the job's row was being sent under the given token, and DATA had
  -- begun on it if it is accepted; the row that the job then has ends in the given status, as
  -- the same attempt of the same handoff, whatever retry follows.
  pub finish_lem :
      (now : ℕ) (fresh job token : String) (o : Outcome) (policy : Option RetryPolicy) (db d : Db)
      → finish host now fresh job token o policy db ≡ ok d
      → (a : Attempt) × (b : Attempt) × (find (job_is job) db.attempts ≡ some a)
        × (find (job_is job) d.attempts ≡ some b)
        × (a.status ≡ AttemptStatus.sending)
        × (opt_str_eq a.claim_token token ≡ true)
        × (o.status ≡ AttemptStatus.smtp_accepted → a.phase ≡ AttemptPhase.data_started)
        × (b.status ≡ o.status)
        × (b.attempt_number ≡ a.attempt_number)
        × (b.handoff_id ≡ a.handoff_id)
  finish_lem now fresh job token o policy db d h =
      let (row, r, e, c) = finish_row host now fresh job token o policy db d h in
      let (sending, token_held, begun) = checked token o row c in
      let m = after_end-Moves host (λ _. false) now fresh job token o policy row db d r e c h in
      let (b, here, along) =
        Moves_induction (λ _. false) {P = Reached job (finished_attempt now o row)}
          (Move-Reached job (finished_attempt now o row) (λ _. false)) m
          (
            finished_attempt now o row,
            ended row e token_held,
            record { handoff = refl; number = refl; onward = omega arith; final = λ q. refl },
          ) in
      (
        row,
        b,
        e,
        here,
        sending,
        token_held,
        begun,
        along.final (ended_stage now o row r),
        sym along.number,
        sym along.handoff,
      )
    where
      turned :
          (x : Attempt)
          → job_is job x ≡ true
          → opt_str_eq x.claim_token token ≡ true
          → changed (finishable job token) (finished_attempt now o) x ≡ finished_attempt now o x
      turned x mine held = rw (mine, held) refl

      ended :
          (row : Attempt)
          → find (job_is job) db.attempts ≡ some row
          → opt_str_eq row.claim_token token ≡ true
          → find
              (job_is job)
              (update_where (finishable job token) (finished_attempt now o) db.attempts)
            ≡ some (finished_attempt now o row)
      ended row e held =
          find-update_where (job_is job) (finishable job token) (finished_attempt now o) db.attempts
            (λ x. refl)
          ∙ ap (Option.map (changed (finishable job token) (finished_attempt now o))) e
          ∙ ap some (turned row (find_holds (job_is job) db.attempts e) held)

  within :
      (o : Outcome) (policy : RetryPolicy) (x : Handoff) (prior : Bool) (row : Attempt)
      (c : Option Controls)
      → auto_retry_allowed o policy x prior row c ≡ true
      → (o.retryable ≡ true)
        × (o.status ≡ AttemptStatus.failed)
        × (prior ≡ false)
        × (row.attempt_number < policy.smtp_max_attempts)
  unfolding auto_retry_allowed is_failed
  within o policy x prior row c h = (ground arith, ground arith, ground arith, ground arith)

  -- Where the automatic retry after finish succeeds under a policy, it either leaves the
  -- attempts as they are, or the outcome is a retryable failure, no other attempt of the handoff
  -- is uncertain with its receipt stored, the attempt's number is below the policy's limit, and
  -- the retry is due no later than the policy's expiry counted from the handoff's first attempt.
  pub auto_retry_bounded :
      (now : ℕ) (fresh job : String) (o : Outcome) (row : Attempt) (x : Handoff)
      (policy : RetryPolicy) (db d : Db)
      → auto_retry host now fresh job o row x (some policy) db ≡ ok d
      → (d.attempts ≡ db.attempts)
        ⊎ ((first : Attempt) × (first_attempt x.handoff_id db.attempts ≡ some first)
            × (o.retryable ≡ true)
            × (o.status ≡ AttemptStatus.failed)
            × (exists (known_unsure x.handoff_id job db) db.attempts ≡ false)
            × (row.attempt_number < policy.smtp_max_attempts)
            × (retry_due host now policy row
                ≤ first.created_at + seconds policy.smtp_retry_expiry_seconds))
  unfolding auto_retry schedule_retry
  auto_retry_bounded now fresh job o row x policy db d h =
      elim (Bool-cases (
        auto_retry_allowed o policy x (is_some (prior_uncertain x.handoff_id job db)) row
          (find (controls_are x.run_id) db.controls))) [
            | inr n ↦ inl (same (rw n at h))
            | inl t ↦
                let (able, failed, unsure, few) =
                  within o policy x (is_some (prior_uncertain x.handoff_id job db)) row
                    (find (controls_are x.run_id) db.controls) t in
                elim (Option-cases (first_attempt x.handoff_id db.attempts)) [
                  | inl q ↦ absurd (ground arith)
                  | inr (first, q) ↦
                      elim (Bool-cases (
                        leb (retry_due host now policy row)
                          (first.created_at + seconds policy.smtp_retry_expiry_seconds))) [
                            | inr late ↦ inl (ground arith)
                            | inl due ↦ inr (
                              first,
                              q,
                              able,
                              failed,
                              none_unsure x.handoff_id job db unsure,
                              few,
                              leb→le _ _ due,
                            )
                          ]
                ]
          ]
    where
      same : {u v : Db} → ok u ≡ ok v → v.attempts ≡ u.attempts
      same q = cc
