-- ===== src/Delivery/Rows.antt =====
-- The WHERE clauses and the status sets by which the delivery modules select rows.
use research_ops_automation.Base.{String, Bool, ◌&&◌, ◌==◌, opt_str_eq, true, false, some, none}
use research_ops_automation.Domain.{
  AttemptStatus, AttemptPhase, TriggerType, Handoff, Attempt, Receipt, Task, TaskVersion,
  CatalogItem,
}

abbrev pub handoff_is : String → Handoff → Bool
handoff_is id h = h.handoff_id == id

abbrev pub is_alert : Handoff → Bool
is_alert h = h.message_type == "system_alert"

abbrev pub job_is : String → Attempt → Bool
job_is id a = a.job_id == id

-- WHERE handoff_id=?
abbrev pub for_handoff : String → Attempt → Bool
for_handoff id a = opt_str_eq a.handoff_id id

abbrev pub task_is : String → Task → Bool
task_is id t = t.task_id == id

abbrev pub version_is : String → TaskVersion → Bool
version_is hash v = v.version_hash == hash

abbrev pub receipt_is : String → Receipt → Bool
receipt_is id r = r.external_receipt_id == id

-- a deleted row of entity_catalog
abbrev pub deleted_item : String → String → CatalogItem → Bool
deleted_item kind key c =
    c.kind == kind && c.legacy_key == key && (elim c.deleted_at [ none ↦ false | some t ↦ true ])

unfoldable pub is_queued : AttemptStatus → Bool
is_queued AttemptStatus.queued = true
is_queued _ = false

unfoldable pub is_sending : AttemptStatus → Bool
is_sending AttemptStatus.sending = true
is_sending _ = false

unfoldable pub is_accepted : AttemptStatus → Bool
is_accepted AttemptStatus.smtp_accepted = true
is_accepted _ = false

unfoldable pub is_uncertain : AttemptStatus → Bool
is_uncertain AttemptStatus.uncertain = true
is_uncertain _ = false

-- status IN ('queued','sending')
unfoldable pub is_pending : AttemptStatus → Bool
is_pending AttemptStatus.queued = true
is_pending AttemptStatus.sending = true
is_pending _ = false

-- status IN ('queued','sending','smtp_accepted')
unfoldable pub is_live : AttemptStatus → Bool
is_live AttemptStatus.queued = true
is_live AttemptStatus.sending = true
is_live AttemptStatus.smtp_accepted = true
is_live _ = false

unfoldable pub is_prepared : AttemptPhase → Bool
is_prepared AttemptPhase.prepared = true
is_prepared _ = false

unfoldable pub is_data_started : AttemptPhase → Bool
is_data_started AttemptPhase.data_started = true
is_data_started _ = false

unfoldable pub is_candidate : TriggerType → Bool
is_candidate TriggerType.candidate_dry_run = true
is_candidate _ = false
