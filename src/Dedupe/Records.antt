-- ===== src/Dedupe/Records.antt =====
-- ContentDeduplicator.process_records, and StateRepository.is_reported_item_unchanged of
-- researchops/storage/repositories.py, on which it rests.
use research_ops_automation.Base.{
  String, Bool, true, false, not, ◌&&◌, ◌||◌, ◌==◌, opt_str_eq, Option, none, some, List, [], ◌∷◌,
  find, exists, Result, ok, ◌>>◌, if◌then◌else◌,
}
use research_ops_automation.Base.Host.{Host}
use research_ops_automation.Base.Json.{Json, str, obj, end, get, truth, set_field}
use research_ops_automation.Domain.{DeliveryStatus, Handoff, ReportedItem, Db}
use research_ops_automation.Delivery.Rows.{handoff_is}
use research_ops_automation.Delivery.Reported.{
  derive_entity_key, derive_content_fingerprint, is_empty,
}
use research_ops_automation.Dedupe.Aliases.{names, equivalent_records, validate_entity_aliases}

-- A warning with the record_id of its record, where it is on one record.
pub data Warning : Type 0 where
  no_key incomplete : Option Json → Warning
  misconfigured : Warning

pub data Verdict : Type 0 where
  keep : Option Warning → Verdict
  exclude : Json → Verdict

-- (reportable_records, excluded_records, warnings)
pub record Outcome : Type 0 where
  pub reportable : List Json
  pub excluded : List Json
  pub warnings : List Warning

-- the handoff of a reported item was accepted, by the queue's own receipt
unfoldable pub was_accepted : Handoff → Bool
was_accepted h =
    (elim h.status [ DeliveryStatus.smtp_accepted ↦ true | _ ↦ false ])
    && opt_str_eq h.receipt_trust_status "verified_local_smtp"

abbrev pub reported_as : String → String → String → List Handoff → ReportedItem → Bool
reported_as task key fingerprint handoffs r =
    r.task_id == task
    && r.entity_key == key
    && r.content_fingerprint == fingerprint
    && exists (λ h. handoff_is r.handoff_id h && was_accepted h) handoffs

unfoldable pub is_reported_item_unchanged : String → String → String → Db → Bool
is_reported_item_unchanged task key fingerprint db =
    exists (reported_as task key fingerprint db.handoffs) db.reported_items

-- `value or {}`
unfoldable pub or_empty : Option Json → Json
or_empty none = obj end
or_empty (some j) = if truth (some j) then j else obj end

unfoldable pub dedupe_config : Option Json → Json
unfolding or_empty
dedupe_config state = or_empty (get "dedupe" (or_empty state))

unfoldable pub set_text : String → String → Json → Json
set_text k s (obj fs) = obj (set_field k (str s) fs)
set_text k s j = j

abbrev pub warned : Option Warning → List Warning → List Warning
warned none ws = ws
warned (some w) ws = w ∷ ws

-- the record goes where its verdict says
abbrev pub place : Json → Verdict → Outcome → Outcome
place record' (keep w) rest = record rest {
  reportable = record' ∷ rest.reportable;
  warnings = warned w rest.warnings;
}
place record' (exclude tagged) rest = record rest { excluded = tagged ∷ rest.excluded }

module _ (host : Host) where
  -- the candidate's own key and fingerprint were reported
  unfoldable pub was_reported : String → List String → List String → Db → Json → Bool
  was_reported task ks cs db candidate = elim (derive_entity_key host candidate ks) [
    | none ↦ false
    | some key ↦ (elim (derive_content_fingerprint host candidate cs) [
      | none ↦ false
      | some fingerprint ↦ is_reported_item_unchanged task key fingerprint db
    ])
  ]

  -- the key under which it was reported, where that is another identity of the record
  unfoldable pub tag_match : String → Option String → Json → Json
  tag_match key none tagged = tagged
  tag_match key (some k) tagged =
      if k == key
      then tagged
      else set_text "_dedupe_match_basis" "configured_identity_alias"
          (set_text "_matched_entity_key" k tagged)

  abbrev pub tagged : String → String → Option String → Json → Json
  tagged key fingerprint matched record' = tag_match key matched (
      set_text "_dedupe_status" "already_reported_exact"
        (set_text "_content_fingerprint" fingerprint (set_text "_entity_key" key record')))

  -- the record that has its key and its fingerprint
  unfoldable pub judge_keyed : String → Json → Db → Json → String → String → Verdict
  judge_keyed task config db record' key fingerprint =
      elim (find (was_reported task (names "key_fields" config) (names "content_fields" config) db)
        (equivalent_records host record' config)) [
          | none ↦ keep none
          | some candidate ↦ exclude (
              tagged key fingerprint (derive_entity_key host candidate (names "key_fields" config))
                record')
        ]

  unfoldable pub judge : String → Json → Db → Json → Verdict
  judge task config db record' = elim (derive_entity_key host record' (names "key_fields" config)) [
    | none ↦ keep (some (no_key (get "record_id" record')))
    | some key ↦
        if key == ""
        then keep (some (no_key (get "record_id" record')))
        else elim (derive_content_fingerprint host record' (names "content_fields" config)) [
          | none ↦ keep (some (incomplete (get "record_id" record')))
          | some fingerprint ↦ judge_keyed task config db record' key fingerprint
        ]
  ]

  unfoldable pub sort_records : String → Json → Db → List Json → Outcome
  sort_records task config db [] = record { reportable = []; excluded = []; warnings = [] }
  sort_records task config db (r ∷ rs) =
      place r (judge task config db r) (sort_records task config db rs)

  unfoldable pub process_records : String → Option Json → List Json → Db → Result Outcome
  process_records task state records db =
      let config = dedupe_config state in
      if not (truth (get "enabled" config))
      then ok (record { reportable = records; excluded = []; warnings = [] })
      else if is_empty (names "key_fields" config) || is_empty (names "content_fields" config)
      then ok (record { reportable = records; excluded = []; warnings = misconfigured ∷ [] })
      else (validate_entity_aliases host config >> ok (sort_records task config db records))
