-- ===== src/Delivery/Catalogue.antt =====
-- What SmtpQueue._commit_reported leaves in reported_items.

use mathlib.Core.Path.{subst}
use research_ops_automation.Base.{
  Some, ℕ, String, Bool, true, false, ◌||◌, ◌==◌, eq_refl, Bool-cases, Option-cases, ◌≡◌, refl, sym,
  ap, ◌∙◌, some, List, [], ◌∷◌, ◌++◌, find, exists, All, arith, inl, inr, exists-append,
}
use research_ops_automation.Base.Host.{Host}
use research_ops_automation.Base.Json.{Json, get, elements}
use research_ops_automation.Domain.{Handoff, ReportedItem, Db}
use research_ops_automation.Delivery.Rows.{version_is}
use research_ops_automation.Delivery.Reported.{
  same_item, composed_for, reported, insert_reported, report_record, report_records,
  commit_reported, derive_entity_key, derive_content_fingerprint, any_missing, dedupe_names,
  is_empty,
}

module _ (host : Host) where
  -- a property of the catalogue that inserting an item of a message keeps
  module _ {ℓ} (h : Handoff) (now : ℕ) (P : List ReportedItem → Type ℓ)
      (keep : (key fingerprint : String) (items : List ReportedItem)
        → P items
        → P (insert_reported host (reported host h now key fingerprint) items)) where
    report_record_keeps :
        (ks fs : List String) (r : Json) (items : List ReportedItem)
        → P items
        → P (report_record host ks fs h now r items)
    unfolding report_record
    report_record_keeps ks fs r items p = elim (Bool-cases (any_missing r (ks ++ fs))) [
      | inl t ↦ rw (t, report_record) p
      | inr n ↦ elim (Option-cases (derive_entity_key host r ks)) [
        | inl k ↦ rw (n, k, report_record) p
        | inr (key, k) ↦ elim (Option-cases (derive_content_fingerprint host r fs)) [
          | inl f ↦ rw (n, k, f, report_record) p
          | inr (fingerprint, f) ↦ elim (Bool-cases (key == "" || fingerprint == "")) [
            | inl e ↦ rw (n, k, f, e, report_record) p
            | inr e ↦ rw (n, k, f, e, report_record) (keep key fingerprint items p)
          ]
        ]
      ]
    ]

    pub report_records_keeps :
        (ks fs : List String) (rs : List Json) (items : List ReportedItem)
        → P items
        → P (report_records host ks fs h now rs items)
    unfolding report_records
    report_records_keeps ks fs [] items p = p
    report_records_keeps ks fs (r ∷ rs) items p =
        report_records_keeps ks fs rs _ (report_record_keeps ks fs r items p)

  insert-exists :
      (q : ReportedItem → Bool) (item : ReportedItem) (items : List ReportedItem)
      → exists q items ≡ true
      → exists q (insert_reported host item items) ≡ true
  unfolding insert_reported
  insert-exists q item items h = ground (arith, exists-append q items item)

  inserted :
      (item : ReportedItem) (items : List ReportedItem)
      → exists (same_item item) (insert_reported host item items) ≡ true
  unfolding insert_reported
  inserted item items = ground (
    arith,
    exists-append (same_item item) items item,
    eq_refl item.task_id,
    eq_refl item.entity_key,
    eq_refl item.content_fingerprint,
  )

  module _ (ks fs : List String) (h : Handoff) (now later : ℕ) where
    -- the item of the record, where it has one, is in the catalogue
    Covered : Json → List ReportedItem → Type 0
    Covered r items =
        (key f : String)
        → any_missing r (ks ++ fs) ≡ false
        → derive_entity_key host r ks ≡ some key
        → derive_content_fingerprint host r fs ≡ some f
        → (key == "" || f == "") ≡ false
        → exists (same_item (reported host h now key f)) items ≡ true

    covered :
        (r : Json) (items : List ReportedItem) → Covered r (report_record host ks fs h now r items)
    unfolding Covered report_record
    covered r items key f m k d e =
        rw (m, k, d, e, report_record) (inserted (reported host h now key f) items)

    insert-Covered :
        (r : Json) (item : ReportedItem) (items : List ReportedItem)
        → Covered r items
        → Covered r (insert_reported host item items)
    unfolding Covered
    insert-Covered r item items c key f m k d e =
        insert-exists (same_item (reported host h now key f)) item items (c key f m k d e)

    Covered-again :
        (r : Json) (items : List ReportedItem)
        → Covered r items
        → report_record host ks fs h later r items ≡ items
    unfolding Covered report_record insert_reported
    Covered-again r items c = elim (Bool-cases (any_missing r (ks ++ fs))) [
      | inl t ↦ rw (t, report_record) refl
      | inr n ↦ elim (Option-cases (derive_entity_key host r ks)) [
        | inl k ↦ rw (n, k, report_record) refl
        | inr (key, k) ↦ elim (Option-cases (derive_content_fingerprint host r fs)) [
          | inl f ↦ rw (n, k, f, report_record) refl
          | inr (fingerprint, f) ↦ elim (Bool-cases (key == "" || fingerprint == "")) [
            | inl e ↦ rw (n, k, f, e, report_record) refl
            | inr e ↦
                rw (n, k, f, e, report_record)
                  (rw (c key fingerprint n k f e, insert_reported) refl)
          ]
        ]
      ]
    ]

    records-Covered :
        (r : Json) (rs : List Json) (items : List ReportedItem)
        → Covered r items
        → Covered r (report_records host ks fs h now rs items)
    records-Covered r rs items c =
        report_records_keeps h now (Covered r)
          (λ key f xs. insert-Covered r (reported host h now key f) xs) ks fs rs items c

    again_at :
        (rs : List Json) (items : List ReportedItem)
        → All (λ r. Covered r items) rs
        → report_records host ks fs h later rs items ≡ items
    unfolding report_records
    again_at [] items c = refl
    again_at (r ∷ rs) items c = rw (Covered-again r items c.0) (again_at rs items c.1)

    All-Covered :
        (rs : List Json) (items : List ReportedItem)
        → All (λ r. Covered r (report_records host ks fs h now rs items)) rs
    unfolding report_records
    All-Covered [] items = tt
    All-Covered (r ∷ rs) items = (records-Covered r rs _ (covered r items), All-Covered rs _)

    -- the item of each record that has one is in the catalogue afterwards
    pub recorded :
        (r : Json) (rs : List Json) (items : List ReportedItem) (key f : String)
        → Some (λ x. x ≡ r) rs
        → any_missing r (ks ++ fs) ≡ false
        → derive_entity_key host r ks ≡ some key
        → derive_content_fingerprint host r fs ≡ some f
        → (key == "" || f == "") ≡ false
        → exists (same_item (reported host h now key f)) (report_records host ks fs h now rs items)
          ≡ true
    unfolding Covered
    recorded r rs items key f there m k d e = found rs there (All-Covered rs items) key f m k d e
      where
        found :
            (xs : List Json)
            → Some (λ x. x ≡ r) xs
            → All (λ x. Covered x (report_records host ks fs h now rs items)) xs
            → Covered r (report_records host ks fs h now rs items)
        found [] p c = elim p [ ]
        found (x ∷ xs) (inl p) c =
            subst (λ y. Covered y (report_records host ks fs h now rs items)) p c.0
        found (x ∷ xs) (inr p) c = found xs p c.1

    records_again :
        (rs : List Json) (items : List ReportedItem)
        → report_records host ks fs h later rs (report_records host ks fs h now rs items)
          ≡ report_records host ks fs h now rs items
    records_again rs items = again_at rs _ (All-Covered rs items)

  -- Recording the reported items of a message a second time, at any time, changes nothing.
  pub commit_reported-commit_reported :
      (h : Handoff) (now later : ℕ) (db : Db)
      → commit_reported host h later (commit_reported host h now db) ≡ commit_reported host h now db
  unfolding commit_reported
  commit_reported-commit_reported h now later db =
      elim (Option-cases (find (composed_for h) db.composition_inputs)) [
        | inl n ↦ unchanged (λ t. rw (n, commit_reported) refl)
        | inr (c, e) ↦ elim (Option-cases (find (version_is h.task_version_hash) db.versions)) [
          | inl n ↦ unchanged (λ t. rw (e, n, commit_reported) refl)
          | inr (v, q) ↦
              elim (Bool-cases (
                is_empty (dedupe_names host "key_fields" v.definition_json)
                || is_empty (dedupe_names host "content_fields" v.definition_json))) [
                  | inl t ↦ unchanged (λ t'. rw (e, q, t, commit_reported) refl)
                  | inr f ↦
                      committed (dedupe_names host "key_fields" v.definition_json)
                        (dedupe_names host "content_fields" v.definition_json)
                        (elements (get "reportable_records" c.input_json))
                        (λ t items. rw (e, q, f, commit_reported) refl)
                ]
        ]
      ]
    where
      unchanged :
          ((t : ℕ) → commit_reported host h t db ≡ db)
          → commit_reported host h later (commit_reported host h now db)
            ≡ commit_reported host h now db
      unchanged idle = rw (idle now) (idle later)

      committed :
          (ks fs : List String) (rs : List Json)
          → ((t : ℕ) (items : List ReportedItem)
              → commit_reported host h t (record db { reported_items = items })
                ≡ record db { reported_items = report_records host ks fs h t rs items })
          → commit_reported host h later (commit_reported host h now db)
            ≡ commit_reported host h now db
      committed ks fs rs one =
          ap (commit_reported host h later) (one now db.reported_items)
          ∙ one later (report_records host ks fs h now rs db.reported_items)
          ∙ ap (λ items. record db { reported_items = items })
              (records_again ks fs h now later rs db.reported_items)
          ∙ sym (one now db.reported_items)
