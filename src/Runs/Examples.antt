-- ===== src/Runs/Examples.antt =====
-- The theorems on the ownership of runs at one run of one task.

use research_ops_automation.Base.{
  ◌<◌, true, ◌≡◌, refl, Option, none, some, List, [], ◌∷◌, find, exists, count_where, length,
  Result, ok, err, is_ok, arith, ◌⊎◌,
}
use research_ops_automation.Domain.{RunStatus, Phase, Run, Lease, Db}
use research_ops_automation.Runs.Rows.{run_is}
use research_ops_automation.Runs.Status.{StatusUpdate}
use research_ops_automation.Runs.Lease.{assert_run_owner}
use research_ops_automation.Runs.Claim.{acquire_lease, claim_next_run, claimed_run, new_lease}
use research_ops_automation.Runs.Steps.{
  Op, claim, heartbeat, update_status, release, cancel, cleanup_verified, steps,
}
use research_ops_automation.Runs.Ownership.{IsPaired, steps-IsPaired}
use research_ops_automation.Runs.Clashes.{claims_never_clash}
use research_ops_automation.Runs.Progress.{Forward, steps-Forward, terminal_forever}
use research_ops_automation.Runs.Claiming.{Taken, Written, claim_next_run_sound}
use research_ops_automation.Runs.Fencing.{FencedOut, fenced_out}
use research_ops_automation.Runs.Held.{claim_held_through}
use research_ops_automation.Runs.Cleanup.{IsClaimed, IsVerified, claim_kept_until_cleanup}
use research_ops_automation.Samples.{run, lease, db, executing}

abbrev waiting : Db
waiting = db RunStatus.queued []

abbrev finish_run : StatusUpdate
finish_run = record {
  run_id = "run-1";
  status = RunStatus.succeeded;
  phase = Phase.finalize;
  attempt = none;
  started_at = none;
  finished_at = some 20;
  error_message = none;
  fencing_token = some "fence-1";
  expected_status = none;
}

-- two workers, of which the first is overtaken by a cancellation
abbrev life : List Op
life =
    claim 10 "worker-1" 60 2 none "fence-1"
    ∷ claim 11 "worker-2" 60 2 none "fence-2"
    ∷ cancel 12 "run-1"
    ∷ update_status 13 finish_run
    ∷ release "run-1" "fence-1"
    ∷ cleanup_verified "run-1" "fence-1"
    ∷ release "run-1" "fence-1"
    ∷ []

steps-IsPaired_example : IsPaired (steps life waiting)
steps-IsPaired_example = steps-IsPaired life waiting refl

steps-Forward_example :
    (r : Run) × (find (run_is "run-1") (steps life waiting).runs ≡ some r)
    × Forward (run RunStatus.queued) r
unfolding find
steps-Forward_example = steps-Forward life waiting "run-1" (run RunStatus.queued) refl

terminal_forever_example :
    (r : Run) × (find (run_is "run-1") (steps life (db RunStatus.failed [])).runs ≡ some r)
    × (RunStatus.failed ≡ r.status)
unfolding find research_ops_automation.Runs.Status.is_terminal
terminal_forever_example =
    terminal_forever life (db RunStatus.failed []) "run-1" (run RunStatus.failed) refl refl

abbrev claim_result : Result (Option (Run × Lease) × Db)
claim_result = claim_next_run 10 "worker-1" 60 2 none "fence-1" waiting

abbrev claimed_db : Result (Option (Run × Lease) × Db) → Db
claimed_db (ok s) = s.1
claimed_db (err e) = waiting

abbrev first_lease : Lease
first_lease = new_lease 10 "worker-1" 60 "fence-1" (run RunStatus.queued)

claim_next_run_sound_example :
    (s : Run) × (claimed_run 10 (run RunStatus.queued) ≡ claimed_run 10 s)
    × (first_lease ≡ new_lease 10 "worker-1" 60 "fence-1" s)
    × Taken 10 none waiting s
    × Written 10 "fence-1" first_lease s waiting (claimed_db claim_result)
    × (length waiting.claims < 2)
unfolding claim_next_run research_ops_automation.Runs.Claim.claim_selected
    research_ops_automation.Runs.Claim.select_first research_ops_automation.Runs.Claim.claimable
    exists research_ops_automation.Runs.Claim.take_run
    research_ops_automation.Runs.Claim.insert_claim research_ops_automation.Runs.Claim.insert_lease
claim_next_run_sound_example =
    claim_next_run_sound 10 "worker-1" 60 2 none "fence-1" waiting
      (claimed_run 10 (run RunStatus.queued)) first_lease (claimed_db claim_result) refl

-- what another worker and an operator do meanwhile
abbrev meanwhile : List Op
meanwhile =
    claim 11 "worker-2" 60 2 none "fence-2"
    ∷ heartbeat 12 "run-1" "fence-2" 900
    ∷ cancel 13 "run-1"
    ∷ release "run-1" "fence-2"
    ∷ []

claim_held_through_example :
    assert_run_owner 50 "run-1" "fence-1" true (steps meanwhile (claimed_db claim_result)) ≡ ok tt
unfolding claim_next_run research_ops_automation.Runs.Claim.claim_selected
    research_ops_automation.Runs.Claim.select_first research_ops_automation.Runs.Claim.claimable
    exists research_ops_automation.Runs.Claim.take_run
    research_ops_automation.Runs.Claim.insert_claim research_ops_automation.Runs.Claim.insert_lease
claim_held_through_example =
    claim_held_through 10 50 "worker-1" 60 2 none "fence-1" waiting
      (claimed_run 10 (run RunStatus.queued)) first_lease (claimed_db claim_result) meanwhile refl
      (omega arith) (tt, (refl, (tt, (refl, tt))))

fenced_out_example : FencedOut 50 "run-1" "fence-0" executing
unfolding find count_where
fenced_out_example = fenced_out 50 "run-1" "fence-0" executing lease refl refl (omega arith) refl

claim_kept_until_cleanup_example :
    IsClaimed "run-1" "fence-1" (steps life executing) ⊎ IsVerified "run-1" (steps life executing)
unfolding find exists research_ops_automation.Runs.Control.is_queued
claim_kept_until_cleanup_example =
    claim_kept_until_cleanup life executing "run-1" "fence-1" (run RunStatus.running) refl refl refl

claims_never_clash_example :
    (is_ok (
        claim_next_run 10 "worker-2" 60 2 none "fence-9" (steps (cancel 12 "run-1" ∷ []) executing))
      ≡ true)
    × (is_ok (
          acquire_lease
            (record first_lease { fencing_token = "fence-8" })
            (steps (cancel 12 "run-1" ∷ []) executing))
        ≡ true)
unfolding steps research_ops_automation.Runs.Steps.step exists
    research_ops_automation.Runs.Control.request_cancel
claims_never_clash_example =
    claims_never_clash (cancel 12 "run-1" ∷ []) executing 10 "worker-2" 60 2 none "fence-9"
      (record first_lease { fencing_token = "fence-8" })
      (record { paired = refl; keyed = ((λ e. refl, tt), tt); fitting = ((λ e. refl, tt), tt) })
      refl refl
