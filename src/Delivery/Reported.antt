-- ===== src/Delivery/Reported.antt =====
-- derive_entity_key and derive_content_fingerprint of researchops/engine/dedupe.py, and
-- SmtpQueue._commit_reported of researchops/delivery/queue.py, which records what was reported.
use research_ops_automation.Base.{
  ℕ, String, Bool, true, false, not, ◌&&◌, ◌||◌, ◌==◌, eqb, str_lt, Option, none, some, List, [],
  ◌∷◌, ◌++◌, find, exists, if◌then◌else◌,
}
use research_ops_automation.Base.Host.{Host}
use research_ops_automation.Base.Json.{
  Json, Fields, null, str, arr, obj, end, field, get, elements, texts, of_list,
}
use research_ops_automation.Base.Text.{blank, contains}
use research_ops_automation.Domain.{Handoff, CompositionInput, ReportedItem, Db}
use research_ops_automation.Delivery.Rows.{version_is}

-- `val is None or str(val).strip() == ""`, where only a blank text is printed blank
unfoldable pub missing_key : Option Json → Bool
missing_key none = true
missing_key (some null) = true
missing_key (some (str s)) = blank s
missing_key (some _) = false

-- the values of the key fields, unless one is missing
unfoldable pub key_parts : Json → List String → Option (List Json)
unfolding missing_key
key_parts record' [] = some []
key_parts record' (k ∷ ks) =
    let rest = key_parts record' ks in
    if missing_key (get k record') then none else elim (get k record') [
      | none ↦ none
      | some v ↦ (elim rest [ none ↦ none | some vs ↦ some (v ∷ vs) ])
    ]

-- `cf not in record or record[cf] is None`
unfoldable pub missing_field : Option Json → Bool
missing_field none = true
missing_field (some null) = true
missing_field (some _) = false

unfoldable pub any_missing : Json → List String → Bool
unfolding missing_field
any_missing record' [] = false
any_missing record' (f ∷ fs) = missing_field (get f record') || any_missing record' fs

-- sorted(content_fields), by insertion
unfoldable pub insert_sorted : String → List String → List String
insert_sorted x [] = x ∷ []
insert_sorted x (y ∷ ys) =
    let rest = insert_sorted x ys in if str_lt y x then y ∷ rest else x ∷ y ∷ ys

unfoldable pub sorted : List String → List String
unfolding insert_sorted
sorted [] = []
sorted (x ∷ xs) = insert_sorted x (sorted xs)

-- content_map, where a repeated field is one entry
unfoldable pub content_map : Json → List String → Fields
content_map record' [] = end
content_map record' (f ∷ fs) =
    let rest = content_map record' fs in
    if contains f fs then rest else elim (get f record') [ none ↦ rest | some v ↦ field f v rest ]

unfoldable pub is_empty {ℓ} : {A : Type ℓ} → List A → Bool
is_empty [] = true
is_empty (x ∷ xs) = false

-- WHERE run_id=? AND revision=?
abbrev pub composed_for : Handoff → CompositionInput → Bool
composed_for h c = c.run_id == h.run_id && eqb c.revision h.message_revision

-- UNIQUE (task_id, entity_key, content_fingerprint)
abbrev pub same_item : ReportedItem → ReportedItem → Bool
same_item item x =
    x.task_id == item.task_id
    && x.entity_key == item.entity_key
    && x.content_fingerprint == item.content_fingerprint

module _ (host : Host) where
  unfoldable pub derive_entity_key : Json → List String → Option String
  unfolding key_parts
  derive_entity_key record' key_fields = elim (key_parts record' key_fields) [
    | none ↦ none
    | some parts ↦ if is_empty parts then none else some (host.canonical (arr (of_list parts)))
  ]

  unfoldable pub derive_content_fingerprint : Json → List String → Option String
  unfolding any_missing content_map sorted
  derive_content_fingerprint record' content_fields =
      if is_empty content_fields || any_missing record' content_fields
      then none
      else some
          (host.sha256 (host.dumps_unicode (obj (content_map record' (sorted content_fields)))))

  -- INSERT OR IGNORE INTO reported_items
  unfoldable pub insert_reported : ReportedItem → List ReportedItem → List ReportedItem
  insert_reported item items = if exists (same_item item) items then items else items ++ item ∷ []

  -- `if key and fingerprint`
  abbrev present : Option String → Bool
  present none = false
  present (some s) = not (s == "")

  abbrev pub reported : Handoff → ℕ → String → String → ReportedItem
  reported h now key fingerprint = record {
    task_id = h.task_id;
    entity_key = key;
    content_fingerprint = fingerprint;
    run_id = h.run_id;
    handoff_id = h.handoff_id;
    reported_at = now;
  }

  unfoldable pub report_record :
      List String → List String → Handoff → ℕ → Json → List ReportedItem → List ReportedItem
  report_record key_fields content_fields h now record' items =
      if any_missing record' (key_fields ++ content_fields)
      then items
      else elim (derive_entity_key record' key_fields) [
        | none ↦ items
        | some key ↦ (elim (derive_content_fingerprint record' content_fields) [
          | none ↦ items
          | some fingerprint ↦
              if key == "" || fingerprint == ""
              then items
              else insert_reported (reported h now key fingerprint) items
        ])
      ]

  unfoldable pub report_records :
      List String → List String → Handoff → ℕ → List Json → List ReportedItem → List ReportedItem
  report_records key_fields content_fields h now [] items = items
  report_records key_fields content_fields h now (r ∷ rs) items =
      report_records key_fields content_fields h now rs
        (report_record key_fields content_fields h now r items)

  -- definition["state"]["dedupe"][name], empty where any part is missing
  unfoldable pub dedupe_names : String → Json → List String
  dedupe_names name definition = elim (get "state" definition) [
    | none ↦ []
    | some state ↦ (elim (get "dedupe" state) [
      | none ↦ []
      | some cfg ↦ texts (elements (get name cfg))
    ])
  ]

  unfoldable pub commit_reported : Handoff → ℕ → Db → Db
  commit_reported h now db = elim (find (composed_for h) db.composition_inputs) [
    | none ↦ db
    | some comp ↦ (elim (find (version_is h.task_version_hash) db.versions) [
      | none ↦ db
      | some version ↦
          let keys = dedupe_names "key_fields" version.definition_json in
          let fields = dedupe_names "content_fields" version.definition_json in
          if is_empty keys || is_empty fields then db else record db {
            reported_items =
                report_records keys fields h now
                  (elements (get "reportable_records" comp.input_json)) db.reported_items;
          }
    ])
  ]
