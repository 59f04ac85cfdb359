-- ===== src/Dedupe/Filter.antt =====
-- What ContentDeduplicator.process_records takes out of the records of a run.
use research_ops_automation.Base.{
  String, Bool, true, false, not, ◌&&◌, ◌==◌, opt_str_eq, if◌then◌else◌, is_some, Bool-cases,
  Option-cases, ◌≡◌, refl, sym, ap, ◌∙◌, Option, none, some, List, [], ◌∷◌, find, exists, select,
  count_where, length, Result, ok, >>=-ok, arith, inl, inr,
}
use research_ops_automation.Base.Host.{Host}
use research_ops_automation.Base.Json.{Json, get, truth}
use research_ops_automation.Domain.{DeliveryStatus, Handoff, ReportedItem, Db}
use research_ops_automation.Delivery.Reported.{
  derive_entity_key, derive_content_fingerprint, is_empty,
}
use research_ops_automation.Dedupe.Aliases.{names, equivalent_records, validate_entity_aliases}
use research_ops_automation.Dedupe.Records.{
  Verdict, Warning, keep, exclude, Outcome, was_accepted, is_reported_item_unchanged, dedupe_config,
  was_reported, judge_keyed, judge, sort_records, process_records, place,
}

exists_never {ℓ} :
    {A : Type ℓ} (p : A → Bool) (xs : List A) → ((x : A) → p x ≡ false) → exists p xs ≡ false
unfolding exists
exists_never p [] h = refl
exists_never p (x ∷ xs) h = rw (h x) (exists_never p xs h)

exists-same {ℓ} :
    {A : Type ℓ} (p q : A → Bool) (xs : List A) → ((x : A) → p x ≡ q x) → exists p xs ≡ exists q xs
unfolding exists
exists-same p q [] h = refl
exists-same p q (x ∷ xs) h = rw (h x, exists-same p q xs h) refl

exists-find {ℓ} :
    {A : Type ℓ} (p q : A → Bool) (xs : List A)
    → ((x : A) → p x ≡ q x)
    → is_some (find p xs) ≡ exists q xs
unfolding find exists
exists-find p q [] h = refl
exists-find p q (x ∷ xs) h = ground (arith, h x, exists-find p q xs h)

abbrev pub yields : Option String → String → Bool
yields none s = false
yields (some t) s = s == t

abbrev pub has_text : Option String → Bool
has_text none = false
has_text (some s) = not (s == "")

-- the server accepted the message, by the queue's own receipt
abbrev pub is_sent : Handoff → Bool
is_sent h =
    (elim h.status [ DeliveryStatus.smtp_accepted ↦ true | _ ↦ false ])
    && opt_str_eq h.receipt_trust_status "verified_local_smtp"

abbrev is_excluded : Verdict → Bool
is_excluded (keep w) = false
is_excluded (exclude r) = true

module _ (host : Host) (task : String) (config : Json) (db : Db) where
  -- the item reports this record for the task, in a message that was sent
  abbrev pub reports : Json → ReportedItem → Bool
  reports r item =
      item.task_id == task
      && yields (derive_entity_key host r (names "key_fields" config)) item.entity_key
      && yields (derive_content_fingerprint host r (names "content_fields" config))
          item.content_fingerprint
      && exists (λ (h : Handoff). h.handoff_id == item.handoff_id && is_sent h) db.handoffs

  -- the record has a key and a fingerprint, and it or a declared equal of it was reported
  abbrev pub is_duplicate : Json → Bool
  is_duplicate r =
      has_text (derive_entity_key host r (names "key_fields" config))
      && is_some (derive_content_fingerprint host r (names "content_fields" config))
      && exists (λ x. exists (reports x) db.reported_items) (equivalent_records host r config)

  was_reported-reports :
      (r : Json)
      → was_reported host task (names "key_fields" config) (names "content_fields" config) db r
        ≡ exists (reports r) db.reported_items
  unfolding was_reported is_reported_item_unchanged was_accepted
  was_reported-reports r =
      elim (Option-cases (derive_entity_key host r (names "key_fields" config))) [
        | inl k ↦ rw (k, was_reported) (sym (exists_never _ db.reported_items (λ i. ground arith)))
        | inr (key, k) ↦
            elim (Option-cases
              (derive_content_fingerprint host r (names "content_fields" config))) [
                | inl f ↦
                    rw (k, f, was_reported)
                      (sym (exists_never _ db.reported_items (λ i. ground arith)))
                | inr (fingerprint, f) ↦
                    rw (k, f, was_reported)
                      (exists-same _ (reports r) db.reported_items (λ i. rw (k, f) refl))
              ]
      ]

  keyed-is_duplicate :
      (r : Json) (key fingerprint : String)
      → is_excluded (judge_keyed host task config db r key fingerprint)
        ≡ exists (λ x. exists (reports x) db.reported_items) (equivalent_records host r config)
  unfolding judge_keyed
  keyed-is_duplicate r key fingerprint =
      chosen
        (find
          (was_reported host task (names "key_fields" config) (names "content_fields" config) db)
          (equivalent_records host r config))
        refl
      ∙ exists-find
          (was_reported host task (names "key_fields" config) (names "content_fields" config) db)
          (λ x. exists (reports x) db.reported_items) (equivalent_records host r config)
          was_reported-reports
    where
      chosen :
          (o : Option Json)
          → find
              (was_reported host task
                (names "key_fields" config)
                (names "content_fields" config)
                db)
              (equivalent_records host r config)
            ≡ o
          → is_excluded (judge_keyed host task config db r key fingerprint) ≡ is_some o
      chosen none e = rw (e, judge_keyed) refl
      chosen (some x) e = rw (e, judge_keyed) refl

  judge-is_duplicate : (r : Json) → is_excluded (judge host task config db r) ≡ is_duplicate r
  unfolding judge
  judge-is_duplicate r =
      elim (Option-cases (derive_entity_key host r (names "key_fields" config))) [
        | inl k ↦ rw (k, judge) refl
        | inr (key, k) ↦ elim (Bool-cases (key == "")) [
          | inl e ↦ rw (k, e, judge) refl
          | inr e ↦
              elim (Option-cases
                (derive_content_fingerprint host r (names "content_fields" config))) [
                  | inl f ↦ rw (k, e, f, judge) refl
                  | inr (fingerprint, f) ↦
                      rw (k, e, f, judge) (keyed-is_duplicate r key fingerprint)
                ]
        ]
      ]

  sorted-select :
      (rs : List Json)
      → ((sort_records host task config db rs).reportable ≡ select (λ r. not (is_duplicate r)) rs)
        × (length (sort_records host task config db rs).excluded ≡ count_where is_duplicate rs)
  unfolding sort_records select count_where
  sorted-select [] = (refl, refl)
  sorted-select (r ∷ rs) =
      placed (judge host task config db r) (sym (judge-is_duplicate r)) (sorted-select rs)
    where
      placed :
          (v : Verdict)
          → is_duplicate r ≡ is_excluded v
          → ((sort_records host task config db rs).reportable
              ≡ select (λ x. not (is_duplicate x)) rs)
            × (length (sort_records host task config db rs).excluded ≡ count_where is_duplicate rs)
          → ((place r v (sort_records host task config db rs)).reportable
              ≡ select (λ x. not (is_duplicate x)) (r ∷ rs))
            × (length (place r v (sort_records host task config db rs)).excluded
                ≡ count_where is_duplicate (r ∷ rs))
      placed (keep w) e h = rw e (ap (λ xs. r ∷ xs) h.0, omega (arith, h.1))
      placed (exclude t) e h = rw e (h.0, omega (arith, h.1))

-- deduplication is on, with fields for the key and for the content
abbrev pub is_configured : Json → Bool
is_configured config =
    truth (get "enabled" config)
    && not (is_empty (names "key_fields" config))
    && not (is_empty (names "content_fields" config))

-- Where process_records succeeds, the reportable records are, in order, those that are no
-- duplicates, and it excludes as many records as are duplicates: records with a key and a
-- fingerprint of which an item of the task was reported, under the key and the fingerprint of
-- the record or of one that the configuration declares equal, in a message that was sent. Where
-- deduplication is off or has no fields, all records are reportable and none is excluded.
pub reportable_fresh :
    (host : Host) (task : String) (state : Option Json) (rs : List Json) (db : Db) (out : Outcome)
    → process_records host task state rs db ≡ ok out
    → if is_configured (dedupe_config state)
      then (out.reportable
          ≡ select (λ r. not (is_duplicate host task (dedupe_config state) db r)) rs)
        × (length out.excluded ≡ count_where (is_duplicate host task (dedupe_config state) db) rs)
      else (out.reportable ≡ rs) × (out.excluded ≡ [])
unfolding process_records
reportable_fresh host task state rs db out h =
    let config = dedupe_config state in
    elim (Bool-cases (truth (get "enabled" config))) [
      | inr f ↦ rw f (ends (rw f at h))
      | inl t ↦ elim (Bool-cases (is_empty (names "key_fields" config))) [
        | inl k ↦ rw (t, k) (ends (rw (t, k) at h))
        | inr k ↦ elim (Bool-cases (is_empty (names "content_fields" config))) [
          | inl c ↦ rw (t, k, c) (ends (rw (t, k, c) at h))
          | inr c ↦
              let (u, _, h1) = >>=-ok (validate_entity_aliases host config) _ (rw (t, k, c) at h) in
              rw (t, k, c, ← ok_is h1) (sorted-select host task config db rs)
        ]
      ]
    ]
  where
    ok_is : {a b : Outcome} → Path (Result Outcome) (ok a) (ok b) → a ≡ b
    ok_is q = cc

    ends :
        {ws : List Warning}
        → Path
            (Result Outcome)
            (ok (record { reportable = rs; excluded = []; warnings = ws }))
            (ok out)
        → (out.reportable ≡ rs) × (out.excluded ≡ [])
    ends q = rw (← ok_is q) (refl, refl)
