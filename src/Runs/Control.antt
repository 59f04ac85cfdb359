-- ===== src/Runs/Control.antt =====
-- RunRepository's execution controls: dry run, cancellation and verified cleanup.
use research_ops_automation.Base.{
  List, ℕ, String, Bool, true, false, not, ◌&&◌, ltb, none, some, update_where, find, exists,
  Result, ok, concurrency, ◌>>◌, guard,
}
use research_ops_automation.Domain.{RunStatus, Phase, Run, Lease, Controls, Db}
use research_ops_automation.Runs.Rows.{run_is, controls_are, claim_held, lease_held}

unfoldable pub is_queued : Run → Bool
is_queued r = elim r.status [ RunStatus.queued ↦ true | _ ↦ false ]

unfoldable pub is_running : Run → Bool
is_running r = elim r.status [ RunStatus.running ↦ true | _ ↦ false ]

-- WHERE run_id=? AND status='queued'
abbrev pub still_queued : String → Run → Bool
still_queued id r = run_is id r && is_queued r

-- the row that a run without one is taken to have, and the column defaults
abbrev pub default_controls : String → Controls
default_controls id = record {
  run_id = id;
  cancel_requested = false;
  force_dry_run = false;
  composition_revision = 1;
  child_cleanup_verified = false;
}

unfoldable pub get_execution_controls : String → Db → Controls
get_execution_controls id db = elim (find (controls_are id) db.controls) [
  | none ↦ default_controls id
  | some c ↦ c
]

unfoldable pub set_force_dry_run : String → Bool → Db → Result Db
unfolding is_queued
set_force_dry_run id value db = do
  let queued = exists (still_queued id) db.runs
  guard (not (queued && exists (controls_are id) db.controls))
      (concurrency "Execution mode can only change before a run is claimed")
  ok (record db {
    controls = update_where (controls_are id) (λ c. record c { force_dry_run = value }) db.controls;
  })

abbrev pub cancelled_before_execution : ℕ → Run → Run
cancelled_before_execution now r = record r {
  status = RunStatus.cancelled;
  phase = Phase.finalize;
  finished_at = some now;
  error_message = some "Cancelled before execution";
}

unfoldable pub request_cancel : ℕ → String → Db → Db
unfolding is_queued
request_cancel now id db = record db {
  controls = update_where (controls_are id) (λ c. record c { cancel_requested = true }) db.controls;
  runs = update_where (still_queued id) (cancelled_before_execution now) db.runs;
}

unfoldable pub mark_cleanup_verified : String → String → Db → Db
mark_cleanup_verified id token db = record db {
  controls =
      update_where (λ c. controls_are id c && exists (claim_held id token) db.claims)
        (λ c. record c { child_cleanup_verified = true }) db.controls;
}

abbrev pub stale : ℕ → Run → Run
stale now r = record r {
  status = RunStatus.needs_attention;
  phase = Phase.finalize;
  finished_at = some now;
  error_message = some "Stale worker lease expired; process cleanup not verified";
}

-- WHERE run_id=? AND status='running' AND EXISTS(an expired lease under the token)
abbrev pub abandoned : ℕ → String → String → List Lease → Run → Bool
abandoned now id token leases r =
    run_is id r
    && is_running r
    && exists (λ (l : Lease). lease_held id token l && ltb l.lease_expires_at now) leases

unfoldable pub mark_stale_attention : ℕ → String → String → Db → Db
unfolding is_running
mark_stale_attention now id token db = record db {
  runs = update_where (abandoned now id token db.leases) (stale now) db.runs;
}
