-- ===== src/Queue/Renewals.antt =====
-- What SmtpQueue.retry does to smtp_attempts: a new attempt, or an earlier time for a waiting one.

use research_ops_automation.Base.{
  ℕ, String, Bool, true, false, eq_refl, Option-cases, Result-cases, ◌≡◌, refl, Option, none, some,
  [], ◌∷◌, ◌++◌, find, exists, update_where, All-always, ok, arith, inl, inr, ◌⊎◌, found-exists,
}
use research_ops_automation.Base.Host.{Host}
use research_ops_automation.Domain.{Attempt, Handoff, Db}
use research_ops_automation.Runs.Steps.{settle_with}
use research_ops_automation.Delivery.Rows.{handoff_is, job_is, for_handoff}
use research_ops_automation.Delivery.Timeline.{add_audit}
use research_ops_automation.Queue.Insert.{insert_attempt, clashes}
use research_ops_automation.Queue.Retry.{
  RetryCall, insert_retry, renewed, retry_attempt, expedite, new_retry, remember, retry_unseen,
  retry, requested, answer,
}
use research_ops_automation.Queue.Moves.{
  misplaced, stage, begun, Quiet, Moves, quiet, again, none_made, live_for,
}
use research_ops_automation.Queue.Attempts.{
  attempts-record_delivery_event, inserted-Fresh, one_move,
}

module _ (host : Host) (now : ℕ) (fresh : String) where
  attempts-renewed :
      (row : Attempt) (id : String) (due : ℕ) (call : RetryCall) (h : Handoff) (db : Db)
      → (renewed host now fresh row id due call h db).attempts ≡ db.attempts
  unfolding renewed add_audit
  attempts-renewed row id due call h db =
      attempts-record_delivery_event host fresh "run_delivery_queued" now none _

  renewed-attempts :
      (row : Attempt) (id : String) (due : ℕ) (call : RetryCall) (expires : Option ℕ) (db d : Db)
      → insert_retry host now fresh row id due call expires db ≡ ok d
      → (d.attempts ≡ db.attempts ++ retry_attempt host now fresh row due call expires ∷ [])
        × (exists (clashes (retry_attempt host now fresh row due call expires)) db.attempts ≡ false)
        × (exists (live_for id) db.attempts ≡ false)
  unfolding insert_retry
  renewed-attempts row id due call expires db d h =
      elim (Option-cases (find (handoff_is id) db.handoffs)) [
        | inl n ↦ ground arith
        | inr (x, e) ↦
            elim (Result-cases
              (insert_attempt (retry_attempt host now fresh row due call expires) db)) [
                | inr (m, q) ↦ ground arith
                | inl (db₁, q) ↦
                    let (added, clear) =
                      inserted-Fresh (retry_attempt host now fresh row due call expires) db db₁ q in
                    ground (arith, attempts-renewed row id due call x db₁)
              ]
      ]

  pub insert_retry-Moves :
      (may : String → Bool) (row : Attempt) (id : String) (due : ℕ) (call : RetryCall)
      (expires : Option ℕ) (db d : Db)
      → row.handoff_id ≡ some id
      → exists (for_handoff id) db.attempts ≡ true
      → insert_retry host now fresh row id due call expires db ≡ ok d
      → Moves may db.attempts d.attempts
  insert_retry-Moves may row id due call expires db d owner parent h =
      let (e, clear, free) = renewed-attempts row id due call expires db d h in
      rw e (
        one_move (
          again (retry_attempt host now fresh row due call expires) id
            (record { queued = refl; prepared = refl; clear = clear }) owner parent free))

  expedited-Moves :
      (may : String → Bool) (job : String) (row : Attempt) (id : String) (call : RetryCall)
      (db d : Db)
      → expedite host now job row id call db ≡ ok d
      → Moves may db.attempts d.attempts
  unfolding expedite add_audit stage begun misplaced
  expedited-Moves may job row id call db d h = rw (sooner h) (
      one_move (
        quiet (job_is job) (λ a. record a { next_attempt_at = some now; updated_at = now })
          (All-always _ db.attempts (λ x _. moved x))))
    where
      sooner :
          expedite host now job row id call db ≡ ok d
          → d.attempts
            ≡ update_where
                (job_is job)
                (λ a. record a { next_attempt_at = some now; updated_at = now })
                db.attempts
      sooner h = ground arith

      moved : (x : Attempt) → Quiet x (record x { next_attempt_at = some now; updated_at = now })
      moved x = record {
        same = record {
          job = refl;
          handoff = refl;
          number = refl;
          onward = omega arith;
          final = λ q. refl;
          placed = λ m. m;
          alive = λ a. a;
        };
        unbegun = λ b. b;
      }

  either_way :
      (job : String) (row : Attempt) (id : String) (call : RetryCall) (db : Db) (r : String × Db)
      → new_retry host now fresh job row id call db ≡ ok r
      → (expedite host now job row id call db ≡ ok r.1)
        ⊎ (insert_retry host now fresh row id now call none db ≡ ok r.1)
  unfolding new_retry
  either_way job row id call db (j, d) h =
      elim (Result-cases (expedite host now job row id call db)) [
        | inl (a, e) ↦ elim (Result-cases (insert_retry host now fresh row id now call none db)) [
          | inl (b, q) ↦ ground arith
          | inr (b, q) ↦ ground arith
        ]
        | inr (a, e) ↦ elim (Result-cases (insert_retry host now fresh row id now call none db)) [
          | inl (b, q) ↦ ground arith
          | inr (b, q) ↦ ground arith
        ]
      ]

  remember-attempts :
      (call : RetryCall) (r : String × Db) (s : String × Db)
      → remember host now call r ≡ ok s
      → s.1.attempts ≡ r.1.attempts
  unfolding remember
  remember-attempts call (j, d) s h = ground arith

  unseen-Moves :
      (may : String → Bool) (job : String) (call : RetryCall) (db : Db) (s : String × Db)
      → retry_unseen host now fresh job call db ≡ ok s
      → Moves may db.attempts s.1.attempts
  unfolding retry_unseen
  unseen-Moves may job call db s h = elim (Option-cases (find (job_is job) db.attempts)) [
    | inl n ↦ ground arith
    | inr (row, e) ↦ elim (Option-cases row.handoff_id) [
      | inl n ↦ ground arith
      | inr (id, o) ↦ elim (Result-cases (new_retry host now fresh job row id call db)) [
        | inr (m, q) ↦ ground arith
        | inl (r, q) ↦
            let g : remember host now call r ≡ ok s = ground arith in
            rw (remember-attempts call r s g) (elim (either_way job row id call db r q) [
              | inl x ↦ expedited-Moves may job row id call db r.1 x
              | inr x ↦
                  insert_retry-Moves may row id now call none db r.1 o
                    (found-exists (job_is job) (for_handoff id) db.attempts e (rw o (eq_refl id))) x
            ])
      ]
    ]
  ]

  pub retry-Moves :
      (may : String → Bool) (job : String) (call : RetryCall) (db : Db)
      → Moves may db.attempts (settle_with db (retry host now fresh job call db)).attempts
  unfolding retry
  retry-Moves may job call db = elim (Result-cases (requested host call db)) [
    | inr (e, q) ↦ rw (q, retry) none_made
    | inl (o, q) ↦ rw (q, retry) (answered o)
  ]
    where
      answered :
          (o : Option String)
          → Moves may db.attempts (settle_with db (answer host now fresh job call db o)).attempts
      answered (some j) = none_made
      answered none = elim (Result-cases (retry_unseen host now fresh job call db)) [
        | inr (e, q) ↦ rw q none_made
        | inl (s, q) ↦ rw q (unseen-Moves may job call db s q)
      ]
