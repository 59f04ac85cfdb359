-- ===== src/Queue/Requests.antt =====
-- Requests that are made again: enqueue and retry give the answer that they gave.

use research_ops_automation.Base.{
  ℕ, String, Bool, true, false, ◌&&◌, eq_iff, eq_refl, Bool-cases, Option-cases, Result-cases, ◌≡◌,
  refl, ap, ◌∙◌, Option, none, some, [], ◌∷◌, ◌++◌, find, exists, Result, ok, err, arith, inl, inr,
  find-append, find-exists,
}
use research_ops_automation.Base.Host.{Host}
use research_ops_automation.Base.Json.{obj}
use research_ops_automation.Domain.{Attempt, Db}
use research_ops_automation.Delivery.Rows.{job_is, for_handoff, is_uncertain}
use research_ops_automation.Queue.Insert.{
  Message, enqueue, insert_message, confirm_message, differs,
}
use research_ops_automation.Queue.Retry.{
  RetryCall, retry, retry_unseen, requested, remember, retry_is, new_retry, latest, retriable,
  request_row,
}
use research_ops_automation.Queue.Attempts.{confirm-attempts}

module _ (host : Host) where
  -- the row that enqueue leaves is that of its message
  confirmed-row :
      (now : ℕ) (m : Message) (inserted : Bool) (db d : Db)
      → confirm_message host now m (inserted, db) ≡ ok d
      → (row : Attempt) × (find (job_is m.job_id) d.attempts ≡ some row)
        × (differs host m row ≡ false)
  unfolding confirm_message
  confirmed-row now m inserted db d h = elim (Option-cases (find (job_is m.job_id) db.attempts)) [
    | inl n ↦ absurd (ground arith)
    | inr (row, e) ↦ elim (Bool-cases (differs host m row)) [
      | inl t ↦ absurd (ground arith)
      | inr f ↦
          (row, ap (find (job_is m.job_id)) (confirm-attempts host now m inserted db d h) ∙ e, f)
    ]
  ]

  enqueued-row :
      (now : ℕ) (m : Message) (db d : Db)
      → enqueue host now m db ≡ ok d
      → (row : Attempt) × (find (job_is m.job_id) d.attempts ≡ some row)
        × (differs host m row ≡ false)
  unfolding enqueue
  enqueued-row now m db d h = elim (Result-cases (insert_message host now m db)) [
    | inr (e, q) ↦ absurd (ground arith)
    | inl ((b, x), q) ↦ confirmed-row now m b x d (rw q at h)
  ]

  -- A message that has been enqueued can be enqueued again at any later time, and that changes
  -- nothing.
  pub enqueue-enqueue :
      (now later : ℕ) (m : Message) (db d : Db)
      → enqueue host now m db ≡ ok d
      → enqueue host later m d ≡ ok d
  unfolding enqueue insert_message confirm_message
  enqueue-enqueue now later m db d h =
      let (row, e, f) = enqueued-row now m db d h in
      ground (arith, e, f, find-exists (job_is m.job_id) d.attempts e)

  remembered :
      (now : ℕ) (call : RetryCall) (r s : String × Db)
      → remember host now call r ≡ ok s
      → requested host call s.1 ≡ ok (some s.0)
  unfolding remember requested
  remembered now call (j, db) s h =
      elim (Bool-cases (exists (retry_is call.request_key) db.retry_requests)) [
        | inl t ↦ absurd (ground arith)
        | inr n ↦ rw (← whole (rw n at h)) (stored db n)
      ]
    where
      whole : {u v : String × Db} → ok u ≡ ok v → u ≡ v
      whole q = cc

      found :
          (db : Db)
          → exists (retry_is call.request_key) db.retry_requests ≡ false
          → find (retry_is call.request_key) (db.retry_requests ++ request_row host now call j ∷ [])
            ≡ some (request_row host now call j)
      found db n =
          find-append (retry_is call.request_key) db.retry_requests (request_row host now call j)
          ∙ rw n (rw (eq_refl call.request_key) refl)

      stored :
          (db : Db)
          → exists (retry_is call.request_key) db.retry_requests ≡ false
          → requested host call
              (record db { retry_requests = db.retry_requests ++ request_row host now call j ∷ [] })
            ≡ ok (some j)
      stored db n = rw (found db n, requested) (rw (eq_refl (host.dumps (obj call.request))) refl)

  -- the call of retry that is not answered from an earlier one
  unseen-remember :
      (now : ℕ) (fresh job : String) (call : RetryCall) (db : Db) (s : String × Db)
      → retry_unseen host now fresh job call db ≡ ok s
      → (r : String × Db) × (remember host now call r ≡ ok s)
  unfolding retry_unseen
  unseen-remember now fresh job call db s h = elim (Option-cases (find (job_is job) db.attempts)) [
    | inl n ↦ absurd (ground arith)
    | inr (row, e) ↦ elim (Option-cases row.handoff_id) [
      | inl n ↦ absurd (ground arith)
      | inr (id, o) ↦ elim (Result-cases (new_retry host now fresh job row id call db)) [
        | inr (m, q) ↦ absurd (ground arith)
        | inl (r, q) ↦ (r, ground arith)
      ]
    ]
  ]

  -- A retry that has been answered gives, for the same call at any later time and on any job,
  -- the same answer, and changes nothing.
  pub retry-retry :
      (now later : ℕ) (fresh other job : String) (call : RetryCall) (db : Db) (s : String × Db)
      → retry host now fresh job call db ≡ ok s
      → retry host later other job call s.1 ≡ ok s
  unfolding retry
  retry-retry now later fresh other job call db s h =
      rw (seen (requested host call db) refl, retry) refl
    where
      whole : {u v : String × Db} → ok u ≡ ok v → u ≡ v
      whole q = cc

      seen :
          (r : Result (Option String))
          → requested host call db ≡ r
          → requested host call s.1 ≡ ok (some s.0)
      seen (err e) q = absurd (ground arith)
      seen (ok (some j)) q = rw (← whole (rw (q, retry) at h)) q
      seen (ok none) q =
          let (r, g) = unseen-remember now fresh job call db s (rw (q, retry) at h) in
          remembered now call r s g

  -- an attempt of the handoff whose end is not known
  abbrev pub unsure : String → Attempt → Bool
  unsure id a = for_handoff id a && is_uncertain a.status

  -- Where retry succeeds on an attempt of a handoff for a request that was not answered before,
  -- the attempt is failed, uncertain or queued, the handoff's latest attempt has its job, and if
  -- any attempt of the handoff is uncertain, the caller has acknowledged it.
  pub retry_acknowledged :
      (now : ℕ) (fresh job id : String) (call : RetryCall) (db : Db) (row : Attempt)
      (s : String × Db)
      → requested host call db ≡ ok none
      → find (job_is job) db.attempts ≡ some row
      → row.handoff_id ≡ some id
      → retry host now fresh job call db ≡ ok s
      → (retriable host row.status ≡ true)
        × ((a : Attempt) × (latest id db.attempts ≡ some a) × (a.job_id ≡ job))
        × (exists (unsure id) db.attempts ≡ true → call.allow_uncertain ≡ true)
  unfolding retry retry_unseen
  retry_acknowledged now fresh job id call db row s q e o h =
      elim (Result-cases (new_retry host now fresh job row id call db)) [
        | inr (m, f) ↦ absurd (ground arith)
        | inl (r, f) ↦ elim (Option-cases (latest id db.attempts)) [
          | inl n ↦ absurd (ground arith)
          | inr (a, l) ↦
              (ground arith, (a, l, ground (arith, eq_iff a.job_id job)), λ u. ground arith)
        ]
      ]
