-- ===== src/Dedupe/Remembered.antt =====
-- What SmtpQueue._commit_reported records of a sent message, process_records takes out of a later
-- run.
use research_ops_automation.Base.{
  ℕ, String, Bool, true, false, not, ◌&&◌, ◌||◌, ◌==◌, Bool-cases, ◌≡◌, refl, Option, some, List,
  [], ◌∷◌, ◌++◌, find, exists, select, All, All-append, Some, ok, arith, inl, inr,
}
use research_ops_automation.Base.Host.{Host}
use research_ops_automation.Base.Json.{Json, get, elements}
use research_ops_automation.Domain.{Handoff, CompositionInput, TaskVersion, ReportedItem, Db}
use research_ops_automation.Delivery.Rows.{version_is}
use research_ops_automation.Delivery.Reported.{
  same_item, composed_for, reported, insert_reported, report_records, commit_reported,
  derive_entity_key, derive_content_fingerprint, any_missing, dedupe_names, is_empty,
}
use research_ops_automation.Delivery.Catalogue.{report_records_keeps, recorded}
use research_ops_automation.Dedupe.Aliases.{names, group_has}
use research_ops_automation.Dedupe.Records.{Outcome, process_records, dedupe_config}
use research_ops_automation.Dedupe.Partition.{alone}
use research_ops_automation.Dedupe.Filter.{
  is_sent, reports, is_duplicate, is_configured, reportable_fresh,
}

-- the item belongs to a message that was sent
abbrev pub Backed : List Handoff → ReportedItem → Type 0
Backed hs i = exists (λ (x : Handoff). x.handoff_id == i.handoff_id && is_sent x) hs ≡ true

selected-holds :
    (p : Json → Bool) (r : Json) (rs : List Json) → Some (λ x. x ≡ r) (select p rs) → p r ≡ true
unfolding select
selected-holds p r [] there = elim there [ ]
selected-holds p r (x ∷ rs) there = elim (Bool-cases (p x)) [
  | inr f ↦ selected-holds p r rs (rw f at there)
  | inl t ↦ elim (rw t at there) [ inl e ↦ rw (← e) t | inr rest ↦ selected-holds p r rs rest ]
]

module _ (host : Host) (h : Handoff) (now : ℕ) where
  insert-Backed :
      (hs : List Handoff) (key fingerprint : String) (items : List ReportedItem)
      → Backed hs (reported host h now key fingerprint)
      → All (Backed hs) items
      → All (Backed hs) (insert_reported host (reported host h now key fingerprint) items)
  unfolding insert_reported
  insert-Backed hs key fingerprint items sent all =
      elim (Bool-cases (exists (same_item (reported host h now key fingerprint)) items)) [
        | inl t ↦ rw t all
        | inr f ↦ rw f (All-append (Backed hs) items _ all sent)
      ]

  known :
      (config : Json) (db : Db) (r : Json) (key fingerprint : String) (items : List ReportedItem)
      → derive_entity_key host r (names "key_fields" config) ≡ some key
      → derive_content_fingerprint host r (names "content_fields" config) ≡ some fingerprint
      → All (Backed db.handoffs) items
      → exists (same_item (reported host h now key fingerprint)) items ≡ true
      → exists (reports host h.task_id config db r) items ≡ true
  unfolding exists
  known config db r key fingerprint [] k f all t = cc
  known config db r key fingerprint (i ∷ items) k f all t =
      elim (Bool-cases (same_item (reported host h now key fingerprint) i)) [
        | inl s ↦ rw (k, f) (ground (arith, s, all.0))
        | inr n ↦ ground (arith, n, known config db r key fingerprint items k f all.1)
      ]

  -- what the tables hold after the message is recorded
  committed :
      (c : CompositionInput) (v : TaskVersion) (db : Db)
      → find (composed_for h) db.composition_inputs ≡ some c
      → find (version_is h.task_version_hash) db.versions ≡ some v
      → is_empty (dedupe_names host "key_fields" v.definition_json) ≡ false
      → is_empty (dedupe_names host "content_fields" v.definition_json) ≡ false
      → commit_reported host h now db ≡ record db {
        reported_items =
            report_records host
              (dedupe_names host "key_fields" v.definition_json)
              (dedupe_names host "content_fields" v.definition_json)
              h
              now
              (elements (get "reportable_records" c.input_json))
              db.reported_items;
      }
  unfolding commit_reported
  committed c v db e q a b = rw (e, q, a, b, commit_reported) refl

  duplicate :
      (config : Json) (db : Db) (r : Json) (key fingerprint : String)
      → derive_entity_key host r (names "key_fields" config) ≡ some key
      → derive_content_fingerprint host r (names "content_fields" config) ≡ some fingerprint
      → (key == "" || fingerprint == "") ≡ false
      → exists
          (group_has host (names "key_fields" config) (some key))
          (elements (get "entity_aliases" config))
        ≡ false
      → exists (reports host h.task_id config db r) db.reported_items ≡ true
      → is_duplicate host h.task_id config db r ≡ true
  unfolding exists
  duplicate config db r key fingerprint k f e n t =
      rw (alone host h.task_id config r key k n, t, k, f) (ground (arith, e))

  -- Where a message was sent, the composition and the task version that it names are stored, and
  -- every item of the catalogue belongs to a message that was sent, then once the message is
  -- recorded, process_records for the same task, with the same fields configured, does not leave
  -- reportable, if it succeeds, a record of the composition that has all of those fields, a key
  -- and a fingerprint, and whose key is in no alias group.
  pub reported_once :
      (c : CompositionInput) (v : TaskVersion) (state : Option Json) (rs : List Json) (db : Db)
      (out : Outcome) (r : Json) (key fingerprint : String)
      → find (composed_for h) db.composition_inputs ≡ some c
      → find (version_is h.task_version_hash) db.versions ≡ some v
      → names "key_fields" (dedupe_config state) ≡ dedupe_names host "key_fields" v.definition_json
      → names "content_fields" (dedupe_config state)
        ≡ dedupe_names host "content_fields" v.definition_json
      → is_configured (dedupe_config state) ≡ true
      → Some (λ x. x ≡ r) (elements (get "reportable_records" c.input_json))
      → any_missing r
          (names "key_fields" (dedupe_config state) ++ names "content_fields" (dedupe_config state))
        ≡ false
      → derive_entity_key host r (names "key_fields" (dedupe_config state)) ≡ some key
      → derive_content_fingerprint host r (names "content_fields" (dedupe_config state))
        ≡ some fingerprint
      → (key == "" || fingerprint == "") ≡ false
      → exists
          (group_has host (names "key_fields" (dedupe_config state)) (some key))
          (elements (get "entity_aliases" (dedupe_config state)))
        ≡ false
      → exists (λ (x : Handoff). x.handoff_id == h.handoff_id && is_sent x) db.handoffs ≡ true
      → All (Backed db.handoffs) db.reported_items
      → process_records host h.task_id state rs (commit_reported host h now db) ≡ ok out
      → ¬ Some (λ x. x ≡ r) out.reportable
  reported_once c v state rs db out r key fingerprint e q ks cs on there m k f n a sent all run =
      let config = dedupe_config state in
      let records = elements (get "reportable_records" c.input_json) in
      let fields = nonempty config on in
      let written = committed c v db e q (rw ks at fields.0) (rw cs at fields.1) in
      let made = rw (← ks, ← cs) at written in
      let items =
        report_records host (names "key_fields" config) (names "content_fields" config) h now
          records db.reported_items in
      let after : Db = record db { reported_items = items } in
      let backed =
        report_records_keeps host h now (All (Backed db.handoffs))
          (λ key' f' xs b. insert-Backed db.handoffs key' f' xs sent b) (names "key_fields" config)
          (names "content_fields" config) records db.reported_items all in
      let found = known config after r key fingerprint items k f backed (
        recorded host (names "key_fields" config) (names "content_fields" config) h now now r
          records db.reported_items key fingerprint there m k f n) in
      let same = duplicate config after r key fingerprint k f n a found in
      let sorted = reportable_fresh host h.task_id state rs after out (rw made at run) in
      let fresh = rw on at sorted in
      λ again.
        let kept =
          selected-holds (λ x. not (is_duplicate host h.task_id config after x)) r rs
            (rw fresh.0 at again) in
        ground (arith, same, kept)
    where
      nonempty :
          (config : Json)
          → is_configured config ≡ true
          → (is_empty (names "key_fields" config) ≡ false)
            × (is_empty (names "content_fields" config) ≡ false)
      nonempty config t = (ground (arith, t), ground (arith, t))
