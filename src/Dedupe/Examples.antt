-- ===== src/Dedupe/Examples.antt =====
-- The theorems on deduplication at one record of a task.

use research_ops_automation.Base.{
  Some, select, count_where, not, inl, find, ℕ, ◌+◌, String, Bool, true, false, ◌==◌, ◌≡◌, refl,
  Option, none, some, List, [], ◌∷◌, exists, length, Result, ok, err, if◌then◌else◌,
}
use research_ops_automation.Base.Json.{
  Json, Fields, bool, str, arr, obj, cons, nil, end, field, get,
}
use research_ops_automation.Domain.{Handoff, DeliveryStatus, RunStatus, ReportedItem, Db}
use research_ops_automation.Delivery.Reported.{derive_entity_key, derive_content_fingerprint}
use research_ops_automation.Dedupe.Records.{
  Outcome, Verdict, exclude, keep, judge, tagged, is_reported_item_unchanged, process_records,
}
use research_ops_automation.Dedupe.Partition.{unsent_reportable}
use research_ops_automation.Dedupe.Filter.{is_duplicate, reportable_fresh}
use research_ops_automation.Dedupe.Remembered.{reported_once}
use research_ops_automation.Delivery.Reported.{commit_reported}
use research_ops_automation.Samples.{host, message, db, composed, version}

abbrev config : Json
config = obj (
    field "enabled" (bool true) (
      field "key_fields" (arr (cons (str "id") nil))
        (field "content_fields" (arr (cons (str "text") nil)) end)))

abbrev state : Option Json
state = some (obj (field "dedupe" config end))

abbrev news : Json
news = obj (field "id" (str "a") (field "text" (str "news") end))

-- a record without its key field
abbrev stray : Json
stray = obj (field "text" (str "news") end)

abbrev item : ReportedItem
item = record {
  task_id = "task-1";
  entity_key = "[]";
  content_fingerprint = "{}";
  run_id = "run-0";
  handoff_id = "handoff-1";
  reported_at = 3;
}

-- the record was reported in a message that was accepted
abbrev sent_db : Db
sent_db = record (db RunStatus.running []) {
  handoffs =
      record message {
        status = DeliveryStatus.smtp_accepted;
        receipt_trust_status = some "verified_local_smtp";
      }
      ∷ [];
  reported_items = item ∷ [];
}

abbrev sorted_as : Result Outcome → Outcome
sorted_as (ok out) = out
sorted_as (err e) = record { reportable = []; excluded = []; warnings = [] }

abbrev sent_out : Outcome
sent_out = sorted_as (process_records host "task-1" state (news ∷ stray ∷ []) sent_db)

abbrev unsent_out : Outcome
unsent_out =
    sorted_as (process_records host "task-1" state (news ∷ stray ∷ []) (db RunStatus.running []))

reportable_fresh_example :
    (sent_out.reportable
      ≡ select (λ r. not (is_duplicate host "task-1" config sent_db r)) (news ∷ stray ∷ []))
    × (length sent_out.excluded
        ≡ count_where (is_duplicate host "task-1" config sent_db) (news ∷ stray ∷ []))
unfolding process_records exists research_ops_automation.Base.Json.truth get
    research_ops_automation.Dedupe.Records.dedupe_config
    research_ops_automation.Delivery.Reported.is_empty research_ops_automation.Base.Json.texts
    research_ops_automation.Base.Json.elements
    research_ops_automation.Dedupe.Aliases.validate_entity_aliases
    research_ops_automation.Dedupe.Aliases.check_groups
reportable_fresh_example =
    reportable_fresh host "task-1" state (news ∷ stray ∷ []) sent_db sent_out refl

unsent_reportable_example : (unsent_out.reportable ≡ news ∷ stray ∷ []) × (unsent_out.excluded ≡ [])
unfolding process_records exists research_ops_automation.Base.Json.truth get
    research_ops_automation.Dedupe.Records.dedupe_config
    research_ops_automation.Delivery.Reported.is_empty research_ops_automation.Base.Json.texts
    research_ops_automation.Base.Json.elements
    research_ops_automation.Dedupe.Aliases.validate_entity_aliases
    research_ops_automation.Dedupe.Aliases.check_groups
unsent_reportable_example =
    unsent_reportable host "task-1" state (news ∷ stray ∷ []) (db RunStatus.running []) unsent_out
      refl refl

abbrev sent_message : Handoff
sent_message = record message {
  status = DeliveryStatus.smtp_accepted;
  receipt_trust_status = some "verified_local_smtp";
}

-- the message is sent, and not yet recorded
abbrev sending_db : Db
sending_db = record (db RunStatus.running []) { handoffs = sent_message ∷ [] }

abbrev later_out : Outcome
later_out = sorted_as (
    process_records host "task-1" state (news ∷ stray ∷ [])
      (commit_reported host sent_message 9 sending_db))

reported_once_example : ¬ Some (λ x. x ≡ news) later_out.reportable
unfolding process_records exists research_ops_automation.Base.Json.truth get
    research_ops_automation.Dedupe.Records.dedupe_config
    research_ops_automation.Delivery.Reported.is_empty research_ops_automation.Base.Json.texts
    research_ops_automation.Base.Json.elements
    research_ops_automation.Dedupe.Aliases.validate_entity_aliases
    research_ops_automation.Dedupe.Aliases.check_groups find
    research_ops_automation.Delivery.Reported.dedupe_names
    research_ops_automation.Delivery.Reported.any_missing derive_entity_key
    research_ops_automation.Base.Text.blank derive_content_fingerprint
reported_once_example =
    reported_once host sent_message 9 composed version state (news ∷ stray ∷ []) sending_db
      later_out news "[]" "{}" refl refl refl refl refl (inl refl) refl refl refl refl refl refl tt
      refl
