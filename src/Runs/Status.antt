-- ===== src/Runs/Status.antt =====
-- RunRepository.update_run_status: the guarded change of a run's status.
use research_ops_automation.Base.{
  ℕ, String, Bool, true, false, not, ◌&&◌, ◌||◌, leb, Option, none, some, update_where, find,
  opt_str_eq, is_some, Result, ok, validation, concurrency, ◌>>=◌, ◌>>◌, guard, require,
}
use research_ops_automation.Domain.{RunStatus, Phase, Run, Lease, Db}
use research_ops_automation.Runs.Rows.{run_is, lease_is, truthy}

pub record StatusUpdate : Type 0 where
  pub run_id : String
  pub status : RunStatus
  pub phase : Phase
  pub attempt : Option ℕ
  pub started_at : Option ℕ
  pub finished_at : Option ℕ
  pub error_message : Option String
  pub fencing_token : Option String
  pub expected_status : Option RunStatus

-- `==` of two status texts
unfoldable pub same_status : RunStatus → RunStatus → Bool
same_status RunStatus.queued RunStatus.queued = true
same_status RunStatus.running RunStatus.running = true
same_status RunStatus.awaiting_receipt RunStatus.awaiting_receipt = true
same_status RunStatus.succeeded RunStatus.succeeded = true
same_status RunStatus.failed RunStatus.failed = true
same_status RunStatus.timed_out RunStatus.timed_out = true
same_status RunStatus.cancelled RunStatus.cancelled = true
same_status RunStatus.needs_attention RunStatus.needs_attention = true
same_status _ _ = false

-- `status not in transitions.get(current, {current})`
unfoldable pub allowed : RunStatus → RunStatus → Bool
unfolding same_status
allowed RunStatus.queued RunStatus.queued = true
allowed RunStatus.queued RunStatus.running = true
allowed RunStatus.queued RunStatus.cancelled = true
allowed RunStatus.queued RunStatus.failed = true
allowed RunStatus.queued RunStatus.needs_attention = true
allowed RunStatus.queued _ = false
allowed RunStatus.running RunStatus.queued = false
allowed RunStatus.running _ = true
allowed RunStatus.awaiting_receipt RunStatus.awaiting_receipt = true
allowed RunStatus.awaiting_receipt RunStatus.succeeded = true
allowed RunStatus.awaiting_receipt RunStatus.failed = true
allowed RunStatus.awaiting_receipt RunStatus.needs_attention = true
allowed RunStatus.awaiting_receipt _ = false
allowed current status = same_status current status

unfoldable pub is_terminal : RunStatus → Bool
is_terminal RunStatus.queued = false
is_terminal RunStatus.running = false
is_terminal RunStatus.awaiting_receipt = false
is_terminal _ = true

-- the caller's token differs from the lease's, or the lease has run out
unfoldable pub lease_blocks : ℕ → Option String → Option Lease → Bool
lease_blocks now token none = false
lease_blocks now token (some l) =
    not (opt_str_eq token l.fencing_token) || leb l.lease_expires_at now

unfoldable pub expectation_fails : Option RunStatus → RunStatus → Bool
unfolding same_status
expectation_fails none current = false
expectation_fails (some s) current = not (same_status current s)

abbrev pub or_keep {ℓ} : {A : Type ℓ} → Option A → Option A → Option A
or_keep none old = old
or_keep (some a) old = some a

abbrev or_keep_attempt : Option ℕ → ℕ → ℕ
or_keep_attempt none old = old
or_keep_attempt (some a) old = a

-- the UPDATE, whose optional columns are set only where a value is given
unfoldable pub set_status : ℕ → StatusUpdate → Run → Run
set_status now u r = record r {
  status = u.status;
  phase = u.phase;
  last_progress_at = some now;
  attempt = or_keep_attempt u.attempt r.attempt;
  started_at = or_keep u.started_at r.started_at;
  finished_at = or_keep u.finished_at r.finished_at;
  error_message = or_keep u.error_message r.error_message;
}

unfoldable pub update_run_status : ℕ → StatusUpdate → Db → Result Db
unfolding lease_blocks expectation_fails
update_run_status now u db = do
  current ← require (find (run_is u.run_id) db.runs) (validation "Run does not exist")
  guard (expectation_fails u.expected_status current.status) (concurrency "Run state changed")
  guard (not (allowed current.status u.status)) (concurrency "Invalid run state transition")
  let lease = find (lease_is u.run_id) db.leases
  guard (lease_blocks now u.fencing_token lease)
      (concurrency "Run update requires the current live fencing token")
  guard (truthy u.fencing_token && not (is_some lease)) (concurrency "Run lease no longer exists")
  guard (is_terminal current.status && not (same_status u.status current.status))
      (concurrency "Terminal run cannot be reopened; enqueue a new attempt")
  ok (record db { runs = update_where (run_is u.run_id) (set_status now u) db.runs })
