-- ===== src/Plan/Build.antt =====
-- execution_plan.py: build_execution_plan, validate_execution_plan and encode_execution_plan.

use research_ops_automation.Base.{
  String, Bool, true, false, not, ◌&&◌, ◌||◌, ◌==◌, eqb, leb, Option, some, List, [], ◌∷◌, Result,
  ok, err, Error, ◌>>=◌, ◌>>◌, guard, validation, if◌then◌else◌,
}
use research_ops_automation.Base.Host.{Host}
use research_ops_automation.Base.Json.{
  Json, null, num, str, obj, end, field, Fields, member, field_count, same_json, truth,
}
use research_ops_automation.Base.Text.{
  all_chars, between, contains, is_identifier, is_sha256, text_length,
}
use research_ops_automation.Base.Split.{split_on}
use research_ops_automation.Plan.Stages.{
  has_keys, has_other_keys, is_label, normalize_stages, or_null,
}

unfoldable pub is_none : Json → Bool
is_none null = true
is_none _ = false

unfoldable pub is_text_with : (String → Bool) → Option Json → Bool
is_text_with p (some (str s)) = p s
is_text_with p _ = false

unfoldable pub is_positive : Option Json → Bool
is_positive (some (num n)) = leb 1 n
is_positive _ = false

-- an immutable composition source
unfoldable pub is_source : Json → Bool
unfolding has_keys is_text_with is_positive is_identifier is_sha256
is_source (obj fields) =
    has_keys ("run_id" ∷ "revision" ∷ "input_sha256" ∷ []) fields
    && is_text_with is_identifier (member "run_id" fields)
    && is_positive (member "revision" fields)
    && is_text_with is_sha256 (member "input_sha256" fields)
is_source _ = false

abbrev pub message_keys : List String
message_keys =
    "run_id" ∷ "revision" ∷ "input_sha256" ∷ "result_sha256" ∷ "html_sha256" ∷ "text_sha256"
    ∷ "files_sha256" ∷ "artifact_manifest_sha256" ∷ []

abbrev pub has_same : String → Fields → Fields → Bool
has_same k a b = same_json (or_null (member k a)) (or_null (member k b))

unfoldable pub is_relative_path : String → Bool
unfolding split_on contains
is_relative_path s = s == "." || (parts_good (split_on b'/' s))
  where
    parts_good : List String → Bool
    parts_good parts = not (contains "" parts || contains "." parts || contains ".." parts)

-- the name of a file of a prepared message: as a PurePosixPath it is relative, is normal, and never
-- leaves its directory
unfoldable pub is_file_name : String → Bool
unfolding all_chars is_relative_path
is_file_name s =
    not (s == "")
    && leb (text_length s) 1024
    && all_chars (λ c. not (eqb c b'\\') && leb 32 c) s
    && is_relative_path s

unfoldable pub all_files : Fields → Bool
unfolding is_file_name is_text_with is_sha256
all_files end = true
all_files (field name digest files) =
    is_file_name name && is_text_with is_sha256 (some digest) && all_files files

unfoldable pub is_inventory : Option Json → Json → Bool
unfolding all_files field_count
is_inventory (some (obj files)) result =
    between 3 256 (field_count files)
    && all_files files
    && same_json (or_null (member "composition-result.json" files)) result
is_inventory _ result = false

unfoldable pub all_hashes : List String → Fields → Bool
unfolding is_text_with is_sha256
all_hashes [] fields = true
all_hashes (k ∷ ks) fields = is_text_with is_sha256 (member k fields) && all_hashes ks fields

-- a prepared message of the composition source
unfoldable pub is_message : Json → Json → Bool
unfolding has_keys all_hashes is_inventory
is_message (obj source) (obj message) =
    has_keys message_keys message
    && has_same "run_id" message source
    && has_same "revision" message source
    && has_same "input_sha256" message source
    && all_hashes
        ("input_sha256" ∷ "result_sha256" ∷ "html_sha256" ∷ "text_sha256"
          ∷ "artifact_manifest_sha256" ∷ [])
        message
    && is_inventory (member "files_sha256" message) (or_null (member "result_sha256" message))
is_message _ _ = false

unfoldable pub all_labels : Fields → Bool
unfolding is_text_with is_label
all_labels end = true
all_labels (field k v fields) = is_text_with is_label (some v) && all_labels fields

unfoldable pub is_kind : String → Bool
unfolding contains
is_kind s = contains s ("task_version" ∷ "parent_run" ∷ "manual" ∷ "legacy" ∷ [])

-- where a selection comes from
unfoldable pub is_provenance : Json → Bool
unfolding has_other_keys is_text_with is_kind all_labels
is_provenance (obj fields) =
    not (has_other_keys ("kind" ∷ "run_id" ∷ "task_version_hash" ∷ []) fields)
    && is_text_with is_kind (member "kind" fields)
    && all_labels fields
is_provenance _ = false

abbrev pub default_provenance : Json
default_provenance = obj (field "kind" (str "task_version") end)

-- selection_source or {"kind": "task_version"}
abbrev pub or_default_provenance : Json → Json
or_default_provenance v = if truth (some v) then v else default_provenance

unfoldable pub is_scope : String → Bool
unfolding contains
is_scope scope = contains scope ("full" ∷ "compose_only" ∷ "delivery_only" ∷ [])

unfoldable pub has_stages : Json → Bool
unfolding has_keys
has_stages (obj stages) = has_keys ("research" ∷ "compose" ∷ []) stages
has_stages _ = false

abbrev pub stage_at : String → Json → Json
stage_at k (obj fields) = or_null (member k fields)
stage_at k _ = null

abbrev pub plan_of : String → Json → Json → Json → Json → Json
plan_of scope stages source provenance message = obj (
    field "schema_version" (num 1) (
      field "scope" (str scope) (
        field "stages" stages (
          field "source_composition" source (
            field "selection_source" provenance
              (if scope == "delivery_only" then field "source_message" message end else end))))))

-- None stands for an argument that is not given
unfoldable pub build_execution_plan : Json → String → Json → Json → Json → Result Json
unfolding is_scope has_stages is_none is_source is_message is_provenance normalize_stages truth
build_execution_plan stages scope source selection message =
    guard (not (is_scope scope) || not (has_stages stages))
      (validation "Invalid execution scope or stages")
    >> (guard (not (is_none source) && not (is_source source))
          (validation "Invalid immutable composition source")
        >> (guard (scope == "full" && not (is_none source))
              (validation "A full execution cannot reuse composition input")
            >> (guard
                  (if scope == "delivery_only"
                    then not (is_message source message)
                    else not (is_none message))
                  (validation "Invalid immutable prepared message source")
                >> (guard (not (is_provenance (or_default_provenance selection)))
                      (validation "Invalid execution selection source")
                    >> (normalize_stages (stage_at "research" stages) (stage_at "compose" stages)
                        >>= λ normal. ok (
                            plan_of scope normal source (or_default_provenance selection)
                              message))))))

abbrev pub plan_keys : Bool → List String
plan_keys delivery_only =
    "schema_version"
    ∷ "scope"
    ∷ "stages"
    ∷ "source_composition"
    ∷ "selection_source"
    ∷ (if delivery_only then "source_message" ∷ [] else [])

unfoldable pub is_version_one : Option Json → Bool
is_version_one (some (num n)) = eqb n 1
is_version_one _ = false

abbrev pub bad_plan : Error
bad_plan = validation "Invalid execution plan"

unfoldable pub scope_text : Option Json → String
scope_text (some (str s)) = s
scope_text _ = ""

unfoldable pub validate_execution_plan : Json → Result Json
unfolding has_keys is_version_one scope_text build_execution_plan
validate_execution_plan (obj plan) =
    guard
      (not (has_keys (plan_keys (scope_text (member "scope" plan) == "delivery_only")) plan)
        || not (is_version_one (member "schema_version" plan)))
      bad_plan
    >> build_execution_plan (or_null (member "stages" plan)) (scope_text (member "scope" plan))
        (or_null (member "source_composition" plan)) (or_null (member "selection_source" plan))
        (or_null (member "source_message" plan))
validate_execution_plan _ = err bad_plan

module _ (host : Host) where
  unfoldable pub encode_execution_plan : Json → Result (String × String)
  unfolding validate_execution_plan
  encode_execution_plan value = validate_execution_plan value >>= λ plan.
      ok (host.canonical plan, host.sha256 (host.canonical plan))
