-- ===== src/Delivery/Examples.antt =====
-- The theorems on deliveries at a message of one run.

use research_ops_automation.Base.{
  ℕ, ◌≤◌, String, Bool, true, false, ◌≡◌, refl, Option, none, some, List, [], ◌∷◌, count_where,
  length, All, Result, ok, err, arith, ◌⊎◌,
}
use research_ops_automation.Base.Json.{Json, same_json}
use research_ops_automation.Domain.{RunStatus, AttemptStatus, AttemptPhase, DeliveryStatus, Run, Db}
use research_ops_automation.Delivery.Authorization.{
  active_version, delivery_settings, assert_delivery_version,
}
use research_ops_automation.Delivery.RetryGuard.{
  climb, counts, family_root, require_retry_family_clear,
}
use research_ops_automation.Delivery.Reported.{commit_reported}
use research_ops_automation.Delivery.Catalogue.{commit_reported-commit_reported}
use research_ops_automation.Delivery.Binding.{delivery_bound}
use research_ops_automation.Delivery.Clear.{RunClear, family_is_clear, climb_enough}
use research_ops_automation.Samples.{host, run, message, attempt, db}

commit_reported-commit_reported_example :
    commit_reported host message 10 (commit_reported host message 9 (db RunStatus.succeeded []))
    ≡ commit_reported host message 9 (db RunStatus.succeeded [])
commit_reported-commit_reported_example =
    commit_reported-commit_reported host message 9 10 (db RunStatus.succeeded [])

delivery_bound_example :
    (active : String) × (active_version "task-1" (db RunStatus.awaiting_receipt []) ≡ ok active)
    × ((active ≡ "v1")
        ⊎ ((true ≡ true)
            × (s : Json) × (t : Json) × (delivery_settings "task-1" "v1"
                  (db RunStatus.awaiting_receipt [])
                ≡ ok s)
            × (delivery_settings "task-1" active (db RunStatus.awaiting_receipt []) ≡ ok t)
            × (same_json s t ≡ true)))
unfolding assert_delivery_version active_version research_ops_automation.Base.find
    research_ops_automation.Base.exists
    research_ops_automation.Delivery.Authorization.is_handoff_mode
    research_ops_automation.Delivery.Authorization.stored_authorization
    research_ops_automation.Delivery.Authorization.read_delivery_authorization
    research_ops_automation.Delivery.Authorization.assert_authorized
delivery_bound_example =
    delivery_bound host "task-1" "v1" (some "run-1") true (db RunStatus.awaiting_receipt []) refl

-- the run has failed, and so has its message
abbrev failed_db : Db
failed_db = record (db RunStatus.failed (attempt AttemptStatus.failed AttemptPhase.finished ∷ [])) {
  handoffs = record message { status = DeliveryStatus.failed } ∷ [];
}

family_is_clear_example :
    All
      (λ r. counts (family_root failed_db.runs "run-1") failed_db r ≡ true → RunClear failed_db r)
      failed_db.runs
unfolding require_retry_family_clear research_ops_automation.Delivery.RetryGuard.check_rows
    research_ops_automation.Delivery.RetryGuard.family_rows counts family_root
    research_ops_automation.Base.find research_ops_automation.Delivery.Rows.is_candidate
    research_ops_automation.Base.select
    research_ops_automation.Delivery.RetryGuard.perhaps_delivered
    research_ops_automation.Base.exists research_ops_automation.Delivery.Rows.is_accepted
    research_ops_automation.Delivery.Rows.is_uncertain
family_is_clear_example = family_is_clear failed_db "run-1" refl

-- two runs, each the parent of the other
abbrev cycle : List Run
cycle =
    record (run RunStatus.failed) { run_id = "a"; parent_run_id = some "b" }
    ∷ record (run RunStatus.failed) { run_id = "b"; parent_run_id = some "a" }
    ∷ []

climb_enough_example : climb 2 cycle "a" ≡ climb 9 cycle "a"
climb_enough_example = climb_enough 2 9 cycle "a" (omega arith) (omega arith)
