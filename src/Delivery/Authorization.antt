-- ===== src/Delivery/Authorization.antt =====
-- researchops/delivery/authorization.py: which task version a delivery may use. The definitions
-- and authorizations are stored as JSON; a row holds the decoded value.
use research_ops_automation.Base.{
  String, Bool, true, false, not, eqb, ◌&&◌, ◌||◌, ◌==◌, Option, none, some, List, [], ◌∷◌, find,
  exists, Result, ok, delivery, ◌>>=◌, ◌>>◌, guard, require, if◌then◌else◌,
}
use research_ops_automation.Base.Host.{Host}
use research_ops_automation.Base.Json.{Json, num, str, obj, get, keys, same_json}
use research_ops_automation.Base.Text.{is_sha256, is_identifier, contains}
use research_ops_automation.Domain.{
  DeliveryMode, TriggerType, Run, Controls, DeliveryAuthorization, Db,
}
use research_ops_automation.Runs.Rows.{run_is, controls_are, truthy}
use research_ops_automation.Delivery.Rows.{task_is, version_is, deleted_item}

unfoldable pub is_replay : TriggerType → Bool
is_replay TriggerType.retry = true
is_replay TriggerType.compose_only = true
is_replay TriggerType.delivery_only = true
is_replay _ = false

-- `value == text` for a JSON value that may be missing
unfoldable pub text_is : String → Option Json → Bool
text_is t (some (str s)) = s == t
text_is t _ = false

unfoldable pub is_object : Json → Bool
is_object (obj fs) = true
is_object _ = false

-- _delivery
unfoldable pub delivery_settings : String → String → Db → Result Json
unfolding text_is is_object
delivery_settings task_id version_hash db = do
  row ←
      require (find (version_is version_hash) db.versions)
        (delivery "Invalid delivery task version")
  guard (not (row.task_id == task_id)) (delivery "Invalid delivery task version")
  settings ←
      require (get "delivery" row.definition_json)
        (delivery "Task version is not in live handoff mode")
  guard (not (is_object settings) || not (text_is "handoff" (get "mode" settings)))
      (delivery "Task version is not in live handoff mode")
  ok settings

unfoldable pub is_handoff_mode : DeliveryMode → Bool
is_handoff_mode DeliveryMode.handoff = true
is_handoff_mode _ = false

-- _status, of which callers read the active version
unfoldable pub active_version : String → Db → Result String
active_version task_id db = do
  row ← require (find (task_is task_id) db.tasks) (delivery "Delivery task has no active version")
  guard (not (truthy row.active_version_hash)) (delivery "Delivery task has no active version")
  guard (exists (deleted_item "task" task_id) db.catalog) (delivery "Delivery task is deleted")
  guard (not (is_handoff_mode row.delivery_mode))
      (delivery "Live mode is not enabled for this task")
  require row.active_version_hash (delivery "Delivery task has no active version")

abbrev authorization_keys : List String
authorization_keys =
    "schema_version" ∷ "task_id" ∷ "source_task_version_hash" ∷ "active_task_version_hash"
    ∷ "delivery_contract_sha256" ∷ []

unfoldable pub subset : List String → List String → Bool
unfolding contains
subset [] ys = true
subset (x ∷ xs) ys = contains x ys && subset xs ys

-- set(value) == keys
unfoldable pub has_exactly : List String → Json → Bool
unfolding subset
has_exactly names (obj fs) = subset names (keys fs) && subset (keys fs) names
has_exactly names _ = false

unfoldable pub is_one : Option Json → Bool
is_one (some (num n)) = eqb n 1
is_one _ = false

unfoldable pub text_has : (String → Bool) → Option Json → Bool
text_has p (some (str s)) = p s
text_has p _ = false

-- the test of encode_delivery_authorization
unfoldable pub authorization_valid : Json → Bool
unfolding has_exactly is_one text_has
authorization_valid value =
    has_exactly authorization_keys value
    && is_one (get "schema_version" value)
    && text_has is_identifier (get "task_id" value)
    && text_has is_sha256 (get "source_task_version_hash" value)
    && text_has is_sha256 (get "active_task_version_hash" value)
    && text_has is_sha256 (get "delivery_contract_sha256" value)

module _ (host : Host) where
  unfoldable pub encode_delivery_authorization : Json → Result (String × String)
  encode_delivery_authorization value = do
    guard (not (authorization_valid value)) (delivery "Invalid run delivery authorization")
    ok (host.canonical value, host.sha256 (host.canonical value))

  -- parent is None, or is a run of another task or another version
  abbrev pub parent_mismatch : Run → Option Run → Bool
  parent_mismatch run none = true
  parent_mismatch run (some p) =
      not (p.task_id == run.task_id) || not (p.task_version_hash == run.task_version_hash)

  -- SELECT … WHERE run_id=? of the run's parent; NULL selects nothing
  unfoldable pub parent_of : Run → Db → Option Run
  parent_of run db = elim run.parent_run_id [ none ↦ none | some p ↦ find (run_is p) db.runs ]

  unfoldable pub validate_delivery_authorization : Run → Json → Db → Result (Unit {0})
  unfolding text_is
  validate_delivery_authorization run authorization db = do
    _ ← encode_delivery_authorization authorization
    guard
        (not (is_replay run.trigger_type)
          || not (text_is run.task_id (get "task_id" authorization))
          || not (text_is run.task_version_hash (get "source_task_version_hash" authorization)))
        (delivery "Run does not match its delivery authorization")
    guard (parent_mismatch run (parent_of run db))
        (delivery "Run delivery authorization requires an immutable replay parent")
    active ← active_version run.task_id db
    guard (not (text_is active (get "active_task_version_hash" authorization))) (
        delivery
          "Task changed after this run's delivery authorization; review the current settings")
    source ← delivery_settings run.task_id run.task_version_hash db
    current ← delivery_settings run.task_id active db
    guard
        (not (same_json source current)
          || not (
              text_is (host.sha256 (host.canonical source))
                (get "delivery_contract_sha256" authorization)))
        (delivery
          "Original and current Task delivery settings differ; review delivery before retrying")

  -- The row's text is the canonical text that its value encodes to, so it is only its hash that
  -- the integrity check can find changed.
  unfoldable pub read_delivery_authorization : String → Db → Result (Option Json)
  read_delivery_authorization run_id db =
      elim (find (λ (a : DeliveryAuthorization). a.run_id == run_id) db.authorizations) [
        | none ↦ ok none
        | some row ↦ encode_delivery_authorization row.authorization_json >>= λ p.
            guard (not (p.1 == row.authorization_sha256))
              (delivery "Run delivery authorization integrity mismatch")
            >> ok (some row.authorization_json)
      ]

  abbrev pub controls_forbid : Option Controls → Bool
  controls_forbid none = true
  controls_forbid (some c) = c.force_dry_run || c.cancel_requested

  -- the rest of assert_delivery_version, on the stored authorization
  unfoldable pub assert_authorized :
      String → String → Option String → Bool → String → Option Json → Db → Result (Unit {0})
  assert_authorized task_id version_hash run_id production active none db =
      guard (not (active == version_hash)) (delivery "Delivery task version is no longer active")
  assert_authorized task_id version_hash run_id production active (some authorization) db = do
    guard (not production) (delivery "Run-scoped delivery authorization requires production")
    id ← require run_id (delivery "This run is not authorized for live delivery")
    row ←
        require (find (run_is id) db.runs) (delivery "This run is not authorized for live delivery")
    guard
        (not (row.task_id == task_id)
          || not (row.task_version_hash == version_hash)
          || controls_forbid (find (controls_are id) db.controls))
        (delivery "This run is not authorized for live delivery")
    validate_delivery_authorization row authorization db

  unfoldable pub stored_authorization : Option String → Db → Result (Option Json)
  stored_authorization none db = ok none
  stored_authorization (some id) db =
      if id == "" then ok none else read_delivery_authorization id db

  unfoldable pub assert_delivery_version :
      String → String → Option String → Bool → Bool → Db → Result (Unit {0})
  assert_delivery_version task_id version_hash run_id production system_alert db = do
    active ← active_version task_id db
    if system_alert
        then guard (not (active == version_hash))
            (delivery "Delivery task version is no longer active")
        else (stored_authorization run_id db >>= λ authorization.
            assert_authorized task_id version_hash run_id production active authorization db)
