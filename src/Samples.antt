-- ===== src/Samples.antt =====
-- A small database for the tests: one task, one run of it, and the run's message.
use research_ops_automation.Base.{true, false, none, some, List, [], ◌∷◌}
use research_ops_automation.Base.Host.{Host}
use research_ops_automation.Base.Json.{Json, str, obj, arr, cons, nil, end, field}
use research_ops_automation.Domain.{
  DeliveryMode, DeliveryStatus, RunStatus, Phase, TriggerType, AttemptStatus, AttemptPhase, Run,
  Lease, Claim, Controls, Handoff, Attempt, Task, TaskVersion, CompositionInput, Db,
}

-- a stand-in for Python's library
abbrev pub host : Host
host = record {
  sha256 = λ s. s;
  dumps = λ j. "{}";
  dumps_unicode = λ j. "{}";
  canonical = λ j. "[]";
  round_ms = λ n. n;
}

abbrev pub run : RunStatus → Run
run status = record {
  run_id = "run-1";
  task_id = "task-1";
  task_version_hash = "v1";
  scheduled_for = 5;
  timezone = "UTC";
  local_date = "2026-01-01";
  local_date_display = "1 January 2026";
  trigger_type = TriggerType.schedule;
  status = status;
  phase = Phase.queued;
  attempt = 0;
  workspace_generation = 1;
  parent_run_id = none;
  created_at = 4;
  started_at = none;
  finished_at = none;
  last_heartbeat_at = none;
  last_progress_at = none;
  error_message = none;
}

abbrev pub lease : Lease
lease = record {
  run_id = "run-1";
  worker_id = "worker-1";
  attempt = 1;
  fencing_token = "fence-1";
  claimed_at = 6;
  heartbeat_at = 6;
  lease_expires_at = 1000;
}

abbrev pub owner : Claim
owner = record { task_id = "task-1"; run_id = "run-1"; fencing_token = "fence-1"; claimed_at = 6 }

abbrev pub controls : Controls
controls = record {
  run_id = "run-1";
  cancel_requested = false;
  force_dry_run = false;
  composition_revision = 1;
  child_cleanup_verified = false;
}

abbrev pub message : Handoff
message = record {
  handoff_id = "handoff-1";
  idempotency_key = "key-1";
  run_id = "run-1";
  task_id = "task-1";
  task_version_hash = "v1";
  message_revision = 1;
  message_type = "research";
  recipient_group_id = "group-1";
  mode = DeliveryMode.handoff;
  status = DeliveryStatus.queued;
  delivery_request_sha256 = "abc";
  published_at = none;
  external_receipt_id = none;
  acknowledged_at = none;
  external_delivery_status = none;
  receipt_sha256 = none;
  receipt_trust_status = none;
  decision_reason = none;
}

abbrev pub attempt : AttemptStatus → AttemptPhase → Attempt
attempt status phase = record {
  job_id = "job-1";
  handoff_id = some "handoff-1";
  status = status;
  phase = phase;
  claim_token = some "token-1";
  claim_pid = some 77;
  message_id = "<1@example.org>";
  mime_bytes = "Subject: x";
  mime_sha256 = "abc";
  envelope_json = obj end;
  config_revision = "c1";
  created_at = 10;
  updated_at = 10;
  error = none;
  server_reply = none;
  parent_job_id = none;
  attempt_number = 1;
  request_key = none;
  request_json = none;
  next_attempt_at = none;
  error_code = none;
  retryable = false;
  diagnostics_json = none;
  expires_at = none;
}

abbrev pub task : Task
task = record {
  task_id = "task-1";
  active_version_hash = some "v1";
  enabled = true;
  delivery_mode = DeliveryMode.handoff;
  delivery_approved = true;
  approved_version_hash = some "v1";
  approved_delivery_revision = some "c1";
}

-- {"delivery": {"mode": "handoff"}, "state": {"dedupe": {"key_fields": ["id"], "content_fields": ["text"]}}}
abbrev pub definition : Json
definition = obj (
    field "delivery" (obj (field "mode" (str "handoff") end)) (
      field "state"
        (obj (
          field "dedupe"
            (obj (
              field "key_fields" (arr (cons (str "id") nil))
                (field "content_fields" (arr (cons (str "text") nil)) end)))
            end))
        end))

abbrev pub version : TaskVersion
version = record { task_id = "task-1"; version_hash = "v1"; definition_json = definition }

-- one record that may be reported
abbrev pub composed : CompositionInput
composed = record {
  run_id = "run-1";
  revision = 1;
  input_json = obj (
      field "reportable_records"
        (arr (cons (obj (field "id" (str "a") (field "text" (str "news") end))) nil)) end);
}

abbrev pub db : RunStatus → List Attempt → Db
db status attempts = record {
  runs = run status ∷ [];
  leases = [];
  claims = [];
  controls = controls ∷ [];
  handoffs = message ∷ [];
  attempts = attempts;
  retry_requests = [];
  receipts = [];
  audit_events = [];
  tasks = task ∷ [];
  versions = version ∷ [];
  catalog = [];
  authorizations = [];
  composition_inputs = composed ∷ [];
  reported_items = [];
}

-- the run is executed by its worker
abbrev pub executing : Db
executing = record (db RunStatus.running []) { leases = lease ∷ []; claims = owner ∷ [] }
