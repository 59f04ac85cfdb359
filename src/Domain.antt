-- ===== src/Domain.antt =====
-- researchops/domain/models.py and researchops/storage/schema.sql: the states of a run and of a
-- delivery, and the rows of the tables. An instant is the number of microseconds since the epoch;
-- the code compares the instants' ISO 8601 texts, which are all UTC, so their order is the same.
-- A column that holds JSON text is its decoded value where the code decodes it, else its text.
use Prim.Native.Nat.{ℕ}
use Prim.Native.String.{String}
use mathlib.Core.Bool.{Bool}
use mathlib.Core.Option.{Option}
use mathlib.Core.List.{List}
use research_ops_automation.Base.Json.{Json}

pub data RunStatus : Type 0 where
  queued running awaiting_receipt succeeded failed timed_out cancelled needs_attention : RunStatus

pub data Phase : Type 0 where
  queued preflight research validate dedupe compose validate_message handoff finalize : Phase

pub data TriggerType : Type 0 where
  schedule manual retry compose_only delivery_only test candidate_dry_run : TriggerType

pub data AttemptStatus : Type 0 where
  queued sending smtp_accepted connection_ok failed uncertain : AttemptStatus

pub data AttemptPhase : Type 0 where
  prepared data_started finished : AttemptPhase

-- delivery_handoffs.status, its external_delivery_status, and the status of a receipt
pub data DeliveryStatus : Type 0 where
  not_requested pending prepared published queued sent accepted acknowledged : DeliveryStatus
  smtp_accepted connection_ok failed uncertain skipped : DeliveryStatus

pub data DeliveryMode : Type 0 where
  disabled dry_run handoff : DeliveryMode

pub record Run : Type 0 where
  pub run_id : String
  pub task_id : String
  pub task_version_hash : String
  pub scheduled_for : ℕ
  pub timezone : String
  pub local_date : String
  pub local_date_display : String
  pub trigger_type : TriggerType
  pub status : RunStatus
  pub phase : Phase
  pub attempt : ℕ
  pub workspace_generation : ℕ
  pub parent_run_id : Option String
  pub created_at : ℕ
  pub started_at : Option ℕ
  pub finished_at : Option ℕ
  pub last_heartbeat_at : Option ℕ
  pub last_progress_at : Option ℕ
  pub error_message : Option String

pub record Lease : Type 0 where
  pub run_id : String
  pub worker_id : String
  pub attempt : ℕ
  pub fencing_token : String
  pub claimed_at : ℕ
  pub heartbeat_at : ℕ
  pub lease_expires_at : ℕ

pub record Claim : Type 0 where
  pub task_id : String
  pub run_id : String
  pub fencing_token : String
  pub claimed_at : ℕ

pub record Controls : Type 0 where
  pub run_id : String
  pub cancel_requested : Bool
  pub force_dry_run : Bool
  pub composition_revision : ℕ
  pub child_cleanup_verified : Bool

pub record Handoff : Type 0 where
  pub handoff_id : String
  pub idempotency_key : String
  pub run_id : String
  pub task_id : String
  pub task_version_hash : String
  pub message_revision : ℕ
  pub message_type : String
  pub recipient_group_id : String
  pub mode : DeliveryMode
  pub status : DeliveryStatus
  pub delivery_request_sha256 : String
  pub published_at : Option ℕ
  pub external_receipt_id : Option String
  pub acknowledged_at : Option ℕ
  pub external_delivery_status : Option DeliveryStatus
  pub receipt_sha256 : Option String
  pub receipt_trust_status : Option String
  pub decision_reason : Option String

-- a row of smtp_attempts
pub record Attempt : Type 0 where
  pub job_id : String
  pub handoff_id : Option String
  pub status : AttemptStatus
  pub phase : AttemptPhase
  pub claim_token : Option String
  pub claim_pid : Option ℕ
  pub message_id : String
  pub mime_bytes : String
  pub mime_sha256 : String
  pub envelope_json : Json
  pub config_revision : String
  pub created_at : ℕ
  pub updated_at : ℕ
  pub error : Option String
  pub server_reply : Option String
  pub parent_job_id : Option String
  pub attempt_number : ℕ
  pub request_key : Option String
  pub request_json : Option String
  pub next_attempt_at : Option ℕ
  pub error_code : Option String
  pub retryable : Bool
  pub diagnostics_json : Option Json
  pub expires_at : Option ℕ

pub record RetryRequest : Type 0 where
  pub request_key : String
  pub job_id : String
  pub request_json : String
  pub created_at : ℕ

pub record Receipt : Type 0 where
  pub external_receipt_id : String
  pub handoff_id : String
  pub idempotency_key : String
  pub delivery_request_sha256 : String
  pub status : DeliveryStatus
  pub occurred_at : ℕ
  pub external_message_ref : Option String
  pub error_json : Json
  pub proof_json : Json
  pub receipt_sha256 : String
  pub imported_at : ℕ

pub record AuditEvent : Type 0 where
  pub entity_type : String
  pub entity_id : String
  pub event_type : String
  pub details_json : Json
  pub actor : String
  pub occurred_at : ℕ

-- a row of tasks
pub record Task : Type 0 where
  pub task_id : String
  pub active_version_hash : Option String
  pub enabled : Bool
  pub delivery_mode : DeliveryMode
  pub delivery_approved : Bool
  pub approved_version_hash : Option String
  pub approved_delivery_revision : Option String

pub record TaskVersion : Type 0 where
  pub task_id : String
  pub version_hash : String
  pub definition_json : Json

-- a row of entity_catalog
pub record CatalogItem : Type 0 where
  pub kind : String
  pub legacy_key : String
  pub owner_user_id : Option String
  pub deleted_at : Option ℕ

pub record DeliveryAuthorization : Type 0 where
  pub run_id : String
  pub authorization_json : Json
  pub authorization_sha256 : String

pub record CompositionInput : Type 0 where
  pub run_id : String
  pub revision : ℕ
  pub input_json : Json

pub record ReportedItem : Type 0 where
  pub task_id : String
  pub entity_key : String
  pub content_fingerprint : String
  pub run_id : String
  pub handoff_id : String
  pub reported_at : ℕ

-- The tables of the database that the modelled operations read or write.
pub record Db : Type 0 where
  pub runs : List Run
  pub leases : List Lease
  pub claims : List Claim
  pub controls : List Controls
  pub handoffs : List Handoff
  pub attempts : List Attempt
  pub retry_requests : List RetryRequest
  pub receipts : List Receipt
  pub audit_events : List AuditEvent
  pub tasks : List Task
  pub versions : List TaskVersion
  pub catalog : List CatalogItem
  pub authorizations : List DeliveryAuthorization
  pub composition_inputs : List CompositionInput
  pub reported_items : List ReportedItem
