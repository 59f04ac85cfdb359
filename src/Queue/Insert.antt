-- ===== src/Queue/Insert.antt =====
-- The constraints of smtp_attempts on a new row, and SmtpQueue.enqueue.
use research_ops_automation.Base.{
  ℕ, String, Bool, true, false, not, ◌&&◌, ◌||◌, ◌==◌, eqb, Option, none, some, List, [], ◌∷◌, ◌++◌,
  find, exists, opt_str_eq, Result, ok, err, integrity, delivery, crash, ◌>>=◌, ◌>>◌, guard,
  require, if◌then◌else◌,
}
use research_ops_automation.Base.Host.{Host}
use research_ops_automation.Base.Json.{Json, same_json}
use research_ops_automation.Domain.{AttemptStatus, AttemptPhase, Handoff, Attempt, Db}
use research_ops_automation.Delivery.Rows.{handoff_is, job_is, is_pending}
use research_ops_automation.Delivery.Timeline.{record_delivery_event}

-- two values that a UNIQUE index takes for equal: NULL differs from all
abbrev pub same_key : Option String → Option String → Bool
same_key none b = false
same_key (some a) b = opt_str_eq b a

-- a row that the new row, which is queued, may not stand beside
unfoldable pub clashes : Attempt → Attempt → Bool
unfolding is_pending
clashes new old =
    old.job_id == new.job_id
    || (same_key old.handoff_id new.handoff_id && eqb old.attempt_number new.attempt_number)
    || (same_key old.handoff_id new.handoff_id && is_pending old.status)
    || same_key old.request_key new.request_key

-- REFERENCES delivery_handoffs(handoff_id)
unfoldable pub handoff_exists : Option String → List Handoff → Bool
handoff_exists none handoffs = true
handoff_exists (some h) handoffs = exists (handoff_is h) handoffs

unfoldable pub insert_attempt : Attempt → Db → Result Db
insert_attempt a db =
    if exists (clashes a) db.attempts || not (handoff_exists a.handoff_id db.handoffs)
    then err integrity
    else ok (record db { attempts = db.attempts ++ a ∷ [] })

-- the arguments of enqueue
pub record Message : Type 0 where
  pub job_id : String
  pub handoff_id : Option String
  pub message_id : String
  pub mime_bytes : String
  pub envelope : Json
  pub config_revision : String

module _ (host : Host) where
  abbrev pub queued_attempt : ℕ → Message → Attempt
  queued_attempt now m = record {
    job_id = m.job_id;
    handoff_id = m.handoff_id;
    status = AttemptStatus.queued;
    phase = AttemptPhase.prepared;
    claim_token = none;
    claim_pid = none;
    message_id = m.message_id;
    mime_bytes = m.mime_bytes;
    mime_sha256 = host.sha256 m.mime_bytes;
    envelope_json = m.envelope;
    config_revision = m.config_revision;
    created_at = now;
    updated_at = now;
    error = none;
    server_reply = none;
    parent_job_id = none;
    attempt_number = 1;
    request_key = none;
    request_json = none;
    next_attempt_at = none;
    error_code = none;
    retryable = false;
    diagnostics_json = none;
    expires_at = none;
  }

  unfoldable pub differs : Message → Attempt → Bool
  differs m row =
      not (row.message_id == m.message_id)
      || not (row.mime_bytes == m.mime_bytes)
      || not (row.config_revision == m.config_revision)
      || not (same_json row.envelope_json m.envelope)

  -- INSERT … ON CONFLICT(job_id) DO NOTHING, with rowcount
  unfoldable pub insert_message : ℕ → Message → Db → Result (Bool × Db)
  insert_message now m db =
      if exists (job_is m.job_id) db.attempts
      then ok (false, db)
      else insert_attempt (queued_attempt now m) db >>= λ db'. ok (true, db')

  -- the checks that follow the INSERT
  unfoldable pub confirm_message : ℕ → Message → Bool × Db → Result Db
  confirm_message now m (inserted, db) = do
    row ← require (find (job_is m.job_id) db.attempts) crash
    guard (differs m row) (delivery "Immutable SMTP queue entry does not match request")
    ok (
        if inserted
        then record_delivery_event host m.job_id "run_delivery_queued" now none db
        else db)

  unfoldable pub enqueue : ℕ → Message → Db → Result Db
  enqueue now m db = insert_message now m db >>= confirm_message now m
