-- ===== src/Runs/Lease.antt =====
-- RunRepository's leases: heartbeat, release, and the checks that a writer still owns its run.
use research_ops_automation.Base.{
  ℕ, String, Bool, true, false, not, ◌&&◌, ◌||◌, leb, ltb, Option, none, some, update_where, find,
  exists, remove_where, opt_str_eq, is_some, Result, ok, concurrency, ◌>>◌, guard, if◌then◌else◌,
}
use research_ops_automation.Domain.{Run, Lease, Controls, Db}
use research_ops_automation.Runs.Rows.{
  run_is, lease_is, controls_are, claim_held, lease_held, truthy,
}
use research_ops_automation.Runs.Control.{is_queued, is_running}

abbrev pub renewable : ℕ → String → String → Lease → Bool
renewable now id token l = lease_held id token l && ltb now l.lease_expires_at

-- True exactly if the lease was renewed.
unfoldable pub heartbeat_lease : ℕ → String → String → ℕ → Db → Bool × Db
heartbeat_lease now id token new_expires_at db =
    if exists (renewable now id token) db.leases
    then (
      true,
      record db {
        leases =
            update_where (renewable now id token)
              (λ l. record l { heartbeat_at = now; lease_expires_at = new_expires_at }) db.leases;
        runs = update_where (run_is id) (λ r. record r { last_heartbeat_at = some now }) db.runs;
      },
    )
    else (false, db)

-- `not control or not control[0]`
abbrev pub cleanup_missing : Option Controls → Bool
cleanup_missing none = true
cleanup_missing (some c) = not c.child_cleanup_verified

unfoldable pub release_blocked : Option Run → Option Controls → Bool
unfolding is_queued
release_blocked none control = false
release_blocked (some r) control = not (is_queued r) && cleanup_missing control

unfoldable pub release_lease : String → String → Db → Result Db
release_lease id token db = do
  let run = find (run_is id) db.runs
  let control = find (controls_are id) db.controls
  guard (release_blocked run control)
      (concurrency "Cannot release task ownership until child cleanup is verified")
  ok (record db {
    leases = remove_where (lease_held id token) db.leases;
    claims = remove_where (claim_held id token) db.claims;
  })

-- a row of the join of leases and claims over the given run and token
abbrev pub live_owner : ℕ → String → String → Db → Bool
live_owner now id token db =
    exists (λ r. run_is id r && is_running r) db.runs
    && exists (renewable now id token) db.leases
    && exists (claim_held id token) db.claims

abbrev pub cancel_flag : Option Controls → Bool
cancel_flag none = false
cancel_flag (some c) = c.cancel_requested

unfoldable pub assert_run_owner : ℕ → String → String → Bool → Db → Result (Unit {0})
assert_run_owner now id token allow_cancel db = do
  guard (not (live_owner now id token db))
      (concurrency "Execution no longer owns a live task lease")
  guard (cancel_flag (find (controls_are id) db.controls) && not allow_cancel)
      (concurrency "Run cancellation requested")

-- _guard_owned_write, before a result of the run is stored
unfoldable pub guard_owned_write : ℕ → String → Option String → Db → Result (Unit {0})
guard_owned_write now id token db = do
  let lease = find (lease_is id) db.leases
  guard
      (elim lease [
        | none ↦ false
        | some l ↦ not (opt_str_eq token l.fencing_token) || leb l.lease_expires_at now
      ])
      (concurrency "Result write rejected: stale or missing fencing token")
  guard (truthy token && not (is_some lease))
      (concurrency "Result write rejected: lease no longer exists")
