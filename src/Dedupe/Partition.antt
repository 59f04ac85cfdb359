-- ===== src/Dedupe/Partition.antt =====
-- What ContentDeduplicator.process_records promises.

use research_ops_automation.Base.{
  String, Bool, false, ◌&&◌, ◌||◌, ◌==◌, Bool-cases, Option-cases, Result-cases, ◌≡◌, refl, ap,
  Option, none, some, List, [], ◌∷◌, find, find-none, exists, ok, arith, inl, inr,
}
use research_ops_automation.Base.Host.{Host}
use research_ops_automation.Base.Json.{Json, get, elements}
use research_ops_automation.Domain.{Handoff, ReportedItem, Db}
use research_ops_automation.Delivery.Rows.{handoff_is}
use research_ops_automation.Delivery.Reported.{derive_entity_key, derive_content_fingerprint}
use research_ops_automation.Dedupe.Aliases.{
  names, equivalent_records, validate_entity_aliases, group_has,
}
use research_ops_automation.Dedupe.Records.{
  Warning, no_key, incomplete, keep, Outcome, was_accepted, reported_as, is_reported_item_unchanged,
  dedupe_config, was_reported, judge_keyed, judge, sort_records, process_records,
}

-- a row of the task whose handoff was accepted
abbrev pub sent_for : String → List Handoff → ReportedItem → Bool
sent_for task handoffs r =
    r.task_id == task && exists (λ h. handoff_is r.handoff_id h && was_accepted h) handoffs

unsent :
    (task key fingerprint : String) (hs : List Handoff) (rs : List ReportedItem)
    → exists (sent_for task hs) rs ≡ false
    → exists (reported_as task key fingerprint hs) rs ≡ false
unfolding exists
unsent task key fingerprint hs [] n = refl
unsent task key fingerprint hs (r ∷ rs) n =
    let (here, rest) = neither (sent_for task hs r) (exists (sent_for task hs) rs) n in
    rw
      (narrow (r.task_id == task) (r.entity_key == key) (r.content_fingerprint == fingerprint)
        (exists (λ h. handoff_is r.handoff_id h && was_accepted h) hs) here)
      (unsent task key fingerprint hs rs rest)
  where
    neither : (b c : Bool) → (b || c) ≡ false → (b ≡ false) × (c ≡ false)
    neither b c q = ground arith

    narrow : (a b c d : Bool) → (a && d) ≡ false → (a && b && c && d) ≡ false
    narrow a b c d q = ground arith

find_nothing {ℓ} :
    {A : Type ℓ} (p : A → Bool) (xs : List A) → ((x : A) → p x ≡ false) → find p xs ≡ none
unfolding find
find_nothing p [] h = refl
find_nothing p (x ∷ xs) h = rw (h x) (find_nothing p xs h)

module _ (host : Host) (task : String) where
  unsent-reported :
      (ks cs : List String) (db : Db) (x : Json)
      → exists (sent_for task db.handoffs) db.reported_items ≡ false
      → was_reported host task ks cs db x ≡ false
  unfolding was_reported is_reported_item_unchanged
  unsent-reported ks cs db x n = elim (Option-cases (derive_entity_key host x ks)) [
    | inl k ↦ rw (k, was_reported) refl
    | inr (key, k) ↦ elim (Option-cases (derive_content_fingerprint host x cs)) [
      | inl f ↦ rw (k, f, was_reported) refl
      | inr (fingerprint, f) ↦
          rw (k, f, was_reported) (unsent task key fingerprint db.handoffs db.reported_items n)
    ]
  ]

  unsent-keep :
      (config : Json) (db : Db) (r : Json) (key fingerprint : String)
      → exists (sent_for task db.handoffs) db.reported_items ≡ false
      → judge_keyed host task config db r key fingerprint ≡ keep none
  unfolding judge_keyed
  unsent-keep config db r key fingerprint n =
      rw
        (
          find_nothing
              (was_reported host task (names "key_fields" config) (names "content_fields" config)
                db)
              (equivalent_records host r config)
              (λ x.
                unsent-reported (names "key_fields" config) (names "content_fields" config) db x n),
          judge_keyed,
        )
        refl

  -- a record is kept, with a warning or without
  kept :
      (config : Json) (db : Db) (r : Json)
      → exists (sent_for task db.handoffs) db.reported_items ≡ false
      → (w : Option Warning) × (judge host task config db r ≡ keep w)
  unfolding judge
  kept config db r n = elim (Option-cases (derive_entity_key host r (names "key_fields" config))) [
    | inl k ↦ (some (no_key (get "record_id" r)), rw (k, judge) refl)
    | inr (key, k) ↦ elim (Bool-cases (key == "")) [
      | inl e ↦ (some (no_key (get "record_id" r)), rw (k, e, judge) refl)
      | inr e ↦
          elim (Option-cases (derive_content_fingerprint host r (names "content_fields" config))) [
            | inl f ↦ (some (incomplete (get "record_id" r)), rw (k, e, f, judge) refl)
            | inr (fingerprint, f) ↦
                (none, rw (k, e, f, judge) (unsent-keep config db r key fingerprint n))
          ]
    ]
  ]

  all_kept :
      (config : Json) (db : Db) (rs : List Json)
      → exists (sent_for task db.handoffs) db.reported_items ≡ false
      → ((sort_records host task config db rs).reportable ≡ rs)
        × ((sort_records host task config db rs).excluded ≡ [])
  unfolding sort_records
  all_kept config db [] n = (refl, refl)
  all_kept config db (r ∷ rs) n =
      let (w, e) = kept config db r n in
      let (same, nothing) = all_kept config db rs n in rw e (ap (λ xs. r ∷ xs) same, nothing)

  -- Where no reported item of the task belongs to a handoff that was accepted, process_records,
  -- if it succeeds, leaves every record reportable, in order, and excludes none.
  pub unsent_reportable :
      (state : Option Json) (rs : List Json) (db : Db) (out : Outcome)
      → exists (sent_for task db.handoffs) db.reported_items ≡ false
      → process_records host task state rs db ≡ ok out
      → (out.reportable ≡ rs) × (out.excluded ≡ [])
  unfolding process_records
  unsent_reportable state rs db out n h =
      let (same, nothing) = all_kept (dedupe_config state) db rs n in
      elim (Result-cases (validate_entity_aliases host (dedupe_config state))) [
        | inl (u, e) ↦ ground (arith, same, nothing)
        | inr (x, e) ↦ ground arith
      ]

  pub alone :
      (config : Json) (r : Json) (key : String)
      → derive_entity_key host r (names "key_fields" config) ≡ some key
      → exists
          (group_has host (names "key_fields" config) (some key))
          (elements (get "entity_aliases" config))
        ≡ false
      → equivalent_records host r config ≡ r ∷ []
  unfolding equivalent_records
  alone config r key k n =
      rw
        (
          k,
          find-none (group_has host (names "key_fields" config) (some key))
              (elements (get "entity_aliases" config)) n,
          equivalent_records,
        )
        refl
