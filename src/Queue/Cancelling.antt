-- ===== src/Queue/Cancelling.antt =====
-- What SmtpQueue.cancel_pending_for_run leaves of a run's messages.

use research_ops_automation.Base.{
  ℕ, String, Bool, true, false, ◌&&◌, ◌||◌, if◌then◌else◌, Bool-cases, ◌≡◌, refl, sym, ◌∙◌, List,
  [], ◌∷◌, exists, update_where, All, arith, inl, inr,
}
use mathlib.Core.Bool.{false≢true}
use research_ops_automation.Base.Host.{Host}
use research_ops_automation.Domain.{Attempt, Handoff, Db}
use research_ops_automation.Delivery.Rows.{is_queued, is_sending, is_pending}
use research_ops_automation.Queue.Recovery.{
  message_for_run, cancelled_attempt, cancel_target, cancel_requested_for, cancel_pending_for_run,
}
use research_ops_automation.Queue.History.{attempts-record_cancelled, attempts-restore_uncertain}

-- a message of the run is neither queued nor being sent
abbrev pub IsSettled : String → List Handoff → Attempt → Type 0
IsSettled run_id handoffs a = message_for_run run_id handoffs a ≡ true → is_pending a.status ≡ false

settled_row :
    (now : ℕ) (b : Bool) (x : Attempt)
    → (b && is_sending x.status) ≡ false
    → b ≡ true
    → is_pending (if b && is_queued x.status then cancelled_attempt now x else x).status ≡ false
unfolding is_pending is_queued is_sending
settled_row now b x n t = ground arith

same_message :
    (run_id : String) (hs : List Handoff) (now : ℕ) (b : Bool) (x : Attempt)
    → message_for_run run_id hs (if b then cancelled_attempt now x else x)
      ≡ message_for_run run_id hs x
unfolding message_for_run
same_message run_id hs now true x = refl
same_message run_id hs now false x = refl

IsSettled-rows :
    (run_id : String) (hs : List Handoff) (now : ℕ) (xs : List Attempt)
    → exists (λ (a : Attempt). message_for_run run_id hs a && is_sending a.status) xs ≡ false
    → All (IsSettled run_id hs) (
        update_where
          (λ (a : Attempt). message_for_run run_id hs a && is_queued a.status)
          (cancelled_attempt now)
          xs)
unfolding exists update_where
IsSettled-rows run_id hs now [] n = tt
IsSettled-rows run_id hs now (x ∷ xs) n =
    let (here, rest) = neither (message_for_run run_id hs x && is_sending x.status) _ n in
    (
      (λ t. settled_row now (message_for_run run_id hs x) x here (
          sym (same_message run_id hs now (message_for_run run_id hs x && is_queued x.status) x)
          ∙ t)),
      IsSettled-rows run_id hs now xs rest,
    )
  where
    neither : (b c : Bool) → (b || c) ≡ false → (b ≡ false) × (c ≡ false)
    neither b c q = ground arith

module _ (host : Host) where
  -- Where cancel_pending_for_run reports that it has cancelled a run, no message of the run that
  -- is no alert is queued or being sent afterwards.
  pub cancel_settles :
      (now : ℕ) (run_id : String) (db : Db)
      → (cancel_pending_for_run host now run_id db).0 ≡ true
      → All (IsSettled run_id db.handoffs) (cancel_pending_for_run host now run_id db).1.attempts
  unfolding cancel_pending_for_run
  cancel_settles now run_id db h =
      elim (Bool-cases (
        exists (λ (a : Attempt). message_for_run run_id db.handoffs a && is_sending a.status)
          db.attempts)) [
            | inl t ↦ absurd (false≢true (rw (t, cancel_pending_for_run) at h))
            | inr f ↦
                elim (Bool-cases
                  (exists (cancel_target run_id) db.runs && cancel_requested_for run_id db)) [
                    | inr n ↦ absurd (false≢true (rw (f, n, cancel_pending_for_run) at h))
                    | inl c ↦
                        rw (f, c, cancel_pending_for_run)
                          (rw (attempts-record_cancelled host now, attempts-restore_uncertain)
                            (IsSettled-rows run_id db.handoffs now db.attempts f))
                  ]
          ]
