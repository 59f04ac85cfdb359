-- ===== src/Queue/Dispatch.antt =====
-- SmtpQueue's sender: what is due, claim, start_data and record_stage.
use research_ops_automation.Base.{
  ℕ, String, Bool, true, false, not, ◌&&◌, ◌||◌, leb, ltb, Option, none, some, List, find, exists,
  select, update_where, count_where, opt_str_eq, Result, ok, delivery, ◌>>=◌, ◌>>◌, guard, require,
  if◌then◌else◌,
}
use research_ops_automation.Base.Host.{Host}
use research_ops_automation.Base.Json.{Json}
use research_ops_automation.Domain.{
  AttemptStatus, AttemptPhase, RunStatus, Run, Task, Controls, Handoff, Attempt, Db,
}
use research_ops_automation.Runs.Rows.{run_is, controls_are}
use research_ops_automation.Delivery.Rows.{
  handoff_is, is_alert, job_is, task_is, is_queued, is_sending, is_prepared, is_candidate,
}
use research_ops_automation.Delivery.Authorization.{is_handoff_mode, assert_delivery_version}
use research_ops_automation.Delivery.Timeline.{record_delivery_event}

-- next_attempt_at IS NULL OR next_attempt_at<=now
unfoldable pub due : ℕ → Attempt → Bool
due now a = elim a.next_attempt_at [ none ↦ true | some t ↦ leb t now ]

-- pending, whose ORDER BY created_at,job_id is left to the caller
unfoldable pub pending : ℕ → Db → List Attempt
unfolding is_queued due
pending now db = select (λ a. is_queued a.status && due now a) db.attempts

-- WHERE job_id=? AND status='queued' AND (include_future OR it is due)
abbrev pub claimable : ℕ → String → Bool → Attempt → Bool
claimable now job_id include_future a =
    job_is job_id a && is_queued a.status && (include_future || due now a)

abbrev pub send_by : ℕ → String → ℕ → Attempt → Attempt
send_by now token pid a = record a {
  status = AttemptStatus.sending;
  claim_token = some token;
  claim_pid = some pid;
  updated_at = now;
}

-- the row is being sent, under that claim
abbrev pub owned : String → String → Attempt → Bool
owned job_id token a = job_is job_id a && is_sending a.status && opt_str_eq a.claim_token token

-- the rows that the permission query joins
pub record Permission : Type 0 where
  pub handoff : Handoff
  pub task : Task
  pub run : Run
  pub controls : Controls

unfoldable pub permission : String → Db → Option Permission
permission handoff_id db = elim (find (handoff_is handoff_id) db.handoffs) [
  | none ↦ none
  | some h ↦ (elim (find (task_is h.task_id) db.tasks) [
    | none ↦ none
    | some t ↦ (elim (find (run_is h.run_id) db.runs) [
      | none ↦ none
      | some r ↦ (elim (find (controls_are h.run_id) db.controls) [
        | none ↦ none
        | some c ↦ some (record { handoff = h; task = t; run = r; controls = c })
      ])
    ])
  ])
]

unfoldable pub is_awaiting : Run → Bool
is_awaiting r = elim r.status [ RunStatus.awaiting_receipt ↦ true | _ ↦ false ]

unfoldable pub revoked : Bool → Attempt → Permission → Bool
unfolding is_awaiting
revoked production row p =
    not (is_handoff_mode p.task.delivery_mode)
    || p.controls.force_dry_run
    || is_candidate p.run.trigger_type
    || (not production
        && (not p.task.delivery_approved
            || not (opt_str_eq p.task.approved_version_hash p.handoff.task_version_hash)
            || not (opt_str_eq p.task.approved_delivery_revision row.config_revision)))
    || (not (is_alert p.handoff) && (p.controls.cancel_requested || not (is_awaiting p.run)))

unfoldable pub expired : ℕ → Attempt → Bool
expired now a = elim a.expires_at [ none ↦ false | some t ↦ leb t now ]

abbrev pub startable : String → String → Attempt → Bool
startable job_id token a = owned job_id token a && is_prepared a.phase

abbrev pub start : ℕ → Attempt → Attempt
start now a = record a { phase = AttemptPhase.data_started; updated_at = now }

module _ (host : Host) where
  -- The index one_smtp_dispatcher allows one row that is being sent; its violation gives None.
  unfoldable pub claim : ℕ → String → ℕ → String → Bool → Db → Option String × Db
  claim now token pid job_id include_future db =
      let sent =
        update_where (claimable now job_id include_future) (send_by now token pid) db.attempts in
      if not (exists (claimable now job_id include_future) db.attempts)
      then (none, db)
      else if ltb 1 (count_where (λ (a : Attempt). is_sending a.status) sent)
      then (none, db)
      else (
        some token,
        record_delivery_event host job_id "run_step_started" now none
            (record db { attempts = sent }),
      )

  unfoldable pub require_permission : Bool → Attempt → Db → Result (Unit {0})
  require_permission production row db = elim row.handoff_id [
    | none ↦ ok tt
    | some h ↦
        require (permission h db) (delivery "SMTP permission revoked before DATA submission")
        >>= λ p.
            guard (revoked production row p)
              (delivery "SMTP permission revoked before DATA submission")
            >> assert_delivery_version host p.handoff.task_id p.handoff.task_version_hash
                (some p.handoff.run_id) production (is_alert p.handoff) db
  ]

  abbrev pub checks : ℕ → Bool → Option Attempt → Db → Result (Unit {0})
  checks now production none db = ok tt
  checks now production (some row) db =
      guard (expired now row) (delivery "Automatic email retry expired before submission")
      >> require_permission production row db

  unfoldable pub start_data : ℕ → String → String → Bool → Db → Result Db
  start_data now job_id token production db = do
    checks now production (find (job_is job_id) db.attempts) db
    guard (not (exists (startable job_id token) db.attempts))
        (delivery "SMTP dispatch ownership lost")
    ok (
        record_delivery_event host job_id "run_delivery_data_started" now none
          (record db { attempts = update_where (startable job_id token) (start now) db.attempts }))

unfoldable pub record_stage : ℕ → String → String → Json → Db → Result Db
record_stage now job_id token diagnostics db = do
  guard (not (exists (owned job_id token) db.attempts)) (delivery "SMTP dispatch ownership lost")
  ok (record db {
    attempts =
        update_where (owned job_id token)
          (λ a. record a { diagnostics_json = some diagnostics; updated_at = now }) db.attempts;
  })
