-- ===== src/Delivery/Binding.antt =====
-- What authorization.assert_delivery_version lets pass.

use research_ops_automation.Base.{
  String, Bool, true, false, eq_iff, Option-cases, Result-cases, ◌≡◌, refl, sym, ap, ◌∙◌, Option,
  none, some, find, ok, arith, inl, inr, ◌⊎◌,
}
use research_ops_automation.Base.Host.{Host}
use research_ops_automation.Base.Json.{Json, same_json}
use research_ops_automation.Domain.{Run, Db}
use research_ops_automation.Runs.Rows.{run_is, controls_are}
use research_ops_automation.Delivery.Authorization.{
  active_version, delivery_settings, stored_authorization, assert_authorized,
  assert_delivery_version, validate_delivery_authorization, encode_delivery_authorization,
  controls_forbid, is_replay,
}

module _ (host : Host) where
  -- what the validation of an authorization compares
  validated :
      (run : Run) (a : Json) (db : Db)
      → validate_delivery_authorization host run a db ≡ ok tt
      → (active : String) × (s : Json) × (t : Json) × (active_version run.task_id db ≡ ok active)
        × (delivery_settings run.task_id run.task_version_hash db ≡ ok s)
        × (delivery_settings run.task_id active db ≡ ok t)
        × (same_json s t ≡ true)
        × (is_replay run.trigger_type ≡ true)
  unfolding validate_delivery_authorization
  validated run a db h = elim (Result-cases (encode_delivery_authorization host a)) [
    | inr (e, q) ↦ absurd (ground arith)
    | inl (x, q) ↦ elim (Result-cases (active_version run.task_id db)) [
      | inr (e, r) ↦ absurd (ground arith)
      | inl (active, r) ↦
          elim (Result-cases (delivery_settings run.task_id run.task_version_hash db)) [
            | inr (e, u) ↦ absurd (ground arith)
            | inl (s, u) ↦ elim (Result-cases (delivery_settings run.task_id active db)) [
              | inr (e, v) ↦ absurd (ground arith)
              | inl (t, v) ↦ (active, s, t, r, u, v, ground arith, ground arith)
            ]
          ]
    ]
  ]

  authorized :
      (task hash : String) (run : Option String) (production : Bool) (active : String) (a : Json)
      (db : Db)
      → assert_authorized host task hash run production active (some a) db ≡ ok tt
      → (id : String) × (row : Run) × (run ≡ some id)
        × (find (run_is id) db.runs ≡ some row)
        × (row.task_id ≡ task)
        × (row.task_version_hash ≡ hash)
        × (production ≡ true)
        × (controls_forbid host (find (controls_are id) db.controls) ≡ false)
        × (validate_delivery_authorization host row a db ≡ ok tt)
  unfolding assert_authorized
  authorized task hash none production active a db h = absurd (ground arith)
  authorized task hash (some id) production active a db h =
      elim (Option-cases (find (run_is id) db.runs)) [
        | inl n ↦ absurd (ground arith)
        | inr (row, e) ↦ (
          id,
          row,
          refl,
          e,
          ground (arith, eq_iff row.task_id task),
          ground (arith, eq_iff row.task_version_hash hash),
          ground arith,
          ground arith,
          ground arith,
        )
      ]

  bound :
      (task hash : String) (run : Option String) (production : Bool) (active : String)
      (a : Option Json) (db : Db)
      → active_version task db ≡ ok active
      → assert_authorized host task hash run production active a db ≡ ok tt
      → (active ≡ hash)
        ⊎ ((production ≡ true)
            × (s : Json) × (t : Json) × (delivery_settings task hash db ≡ ok s)
            × (delivery_settings task active db ≡ ok t)
            × (same_json s t ≡ true))
  unfolding assert_authorized
  bound task hash run production active none db q h = inl (ground (arith, eq_iff active hash))
  bound task hash run production active (some a) db q h =
      let (id, row, named, found, mine, version, live, allowed, valid) =
        authorized task hash run production active a db h in
      let (current, s, t, r, u, v, same, replay) = validated row a db valid in
      let one = unique (sym r ∙ ap (λ x. active_version x db) mine ∙ q) in
      inr (live, s, t, moved u mine version, moved v mine one, same)
    where
      moved :
          {x y a b : String} {j : Json}
          → delivery_settings x y db ≡ ok j
          → x ≡ a
          → y ≡ b
          → delivery_settings a b db ≡ ok j
      moved e p q = rw (← p, ← q) e

      unique : {u v : String} → ok u ≡ ok v → u ≡ v
      unique q = cc

  -- Where assert_delivery_version accepts a version for a message that is no alert, the task has
  -- an active version, and it is that version, or the caller is in production and the delivery
  -- settings of the version and of the active one are equal.
  pub delivery_bound :
      (task hash : String) (run : Option String) (production : Bool) (db : Db)
      → assert_delivery_version host task hash run production false db ≡ ok tt
      → (active : String) × (active_version task db ≡ ok active)
        × ((active ≡ hash)
            ⊎ ((production ≡ true)
                × (s : Json) × (t : Json) × (delivery_settings task hash db ≡ ok s)
                × (delivery_settings task active db ≡ ok t)
                × (same_json s t ≡ true)))
  unfolding assert_delivery_version
  delivery_bound task hash run production db h = elim (Result-cases (active_version task db)) [
    | inr (e, q) ↦ absurd (ground arith)
    | inl (active, q) ↦ elim (Result-cases (stored_authorization host run db)) [
      | inr (e, r) ↦ absurd (ground arith)
      | inl (a, r) ↦ (
        active,
        q,
        bound task hash run production active a db q (rw (q, r, assert_delivery_version) at h),
      )
    ]
  ]
