-- ===== src/Delivery/Timeline.antt =====
-- record_delivery_event of researchops/delivery/timeline.py.
use Prim.Native.String
use research_ops_automation.Base.{
  ℕ, ◌-◌, String, Bool, false, not, ◌&&◌, ◌==◌, leb, Option, none, some, List, [], ◌∷◌, ◌++◌, find,
  if◌then◌else◌,
}
use mathlib.Core.List.{reverse}
use research_ops_automation.Base.Host.{Host}
use research_ops_automation.Base.Json.{Json, Fields, null, num, str, obj, end, field, get}
use research_ops_automation.Domain.{Run, Handoff, Attempt, AuditEvent, Db}
use research_ops_automation.Runs.Rows.{run_is}
use research_ops_automation.Delivery.Rows.{handoff_is, is_alert, job_is}

-- the handoff of an attempt, if it is a research message, and the handoff's run
unfoldable pub message_of : Attempt → Db → Option Handoff
message_of a db = elim a.handoff_id [
  | none ↦ none
  | some h ↦ find (λ x. handoff_is h x && not (is_alert x)) db.handoffs
]

unfoldable pub run_of : Option Handoff → Db → Option Run
run_of none db = none
run_of (some h) db = find (run_is h.run_id) db.runs

-- INSERT INTO audit_events
unfoldable pub add_audit : AuditEvent → Db → Db
add_audit e db = record db { audit_events = db.audit_events ++ e ∷ [] }

abbrev json_is : Option Json → String → Bool
json_is (some (str s)) t = s == t
json_is _ t = false

module _ (host : Host) where
  unfoldable pub step_id : String → String
  step_id job_id = String.◌++◌ "smtp-" (String.slice (host.sha256 job_id) 0 32)

  -- a run_step_started event of the run for that step
  abbrev started_event : String → String → AuditEvent → Bool
  started_event run_id job_id e =
      e.entity_type == "run"
      && e.entity_id == run_id
      && e.event_type == "run_step_started"
      && json_is (get "step_id" e.details_json) (step_id job_id)

  -- the start that the newest such event recorded
  unfoldable pub recorded_start : String → String → List AuditEvent → Option ℕ
  recorded_start run_id job_id events = elim (find (started_event run_id job_id) (reverse events)) [
    | none ↦ none
    | some e ↦ elim (get "started_at" e.details_json) [ some (num t) ↦ some t | _ ↦ none ]
  ]

  abbrev instant : Option ℕ → Json
  instant none = null
  instant (some t) = num t

  -- a negative time is not recorded
  unfoldable pub duration_ms : ℕ → Option ℕ → Json
  duration_ms now none = null
  duration_ms now (some t) = if leb t now then num (host.round_ms (now - t)) else null

  abbrev timing : String → ℕ → Option String → Option ℕ → Fields
  timing event_type now state start =
      if event_type == "run_step_started"
      then field "state" (str "running")
          (field "started_at" (num now) (field "finished_at" null (field "duration_ms" null end)))
      else if event_type == "run_step_finished"
      then field "state" (elim state [ none ↦ null | some s ↦ str s ])
          (field "started_at" (instant start)
            (field "finished_at" (num now) (field "duration_ms" (duration_ms now start) end)))
      else end

  abbrev delivery_event : String → String → ℕ → Option String → Attempt → Run → Db → AuditEvent
  delivery_event job_id event_type now state a r db = record {
    entity_type = "run";
    entity_id = r.run_id;
    event_type = event_type;
    details_json = obj (
        field "schema_version" (num 1) (
          field "step_id" (str (step_id job_id)) (
            field "phase" (str "smtp") (
              field "label" (str "smtp") (
                field "attempt" (num r.attempt) (
                  field "summary" (obj (field "mime_bytes" (num (String.len a.mime_bytes)) end)) (
                    timing event_type now state
                      (recorded_start r.run_id job_id db.audit_events))))))));
    actor = "smtp-dispatcher";
    occurred_at = now;
  }

  unfoldable pub record_for : String → String → ℕ → Option String → Db → Attempt → Option Run → Db
  record_for job_id event_type now state db a none = db
  record_for job_id event_type now state db a (some r) =
      add_audit (delivery_event job_id event_type now state a r db) db

  unfoldable pub record_delivery_event : String → String → ℕ → Option String → Db → Db
  record_delivery_event job_id event_type now state db = elim (find (job_is job_id) db.attempts) [
    | none ↦ db
    | some a ↦ record_for job_id event_type now state db a (run_of (message_of a db) db)
  ]
