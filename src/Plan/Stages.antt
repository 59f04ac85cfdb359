-- ===== src/Plan/Stages.antt =====
-- execution_plan.py: the settings of the stages of a run. A value is decoded JSON; a missing key and
-- None are told apart only where the code does.
use research_ops_automation.Base.{
  String, Bool, not, ◌&&◌, ◌==◌, Option, none, some, List, [], ◌∷◌, exists, Result, ok, err, Error,
  ◌>>=◌, ◌>>◌, guard, validation, if◌then◌else◌,
}
use research_ops_automation.Base.Json.{Json, null, str, obj, end, field, Fields, member, keys}
use research_ops_automation.Base.Text.{all_chars, between, contains, is_control, text_length}

-- a text that names a model, an effort or a source
unfoldable pub is_label : String → Bool
unfolding all_chars is_control
is_label s = between 1 200 (text_length s) && all_chars (λ c. not (is_control c)) s

-- set(value) - names is not empty
unfoldable pub has_other_keys : List String → Fields → Bool
unfolding contains keys
has_other_keys names fields = exists (λ k. not (contains k names)) (keys fields)

-- set(value) == set(names), for the keys of a dictionary
unfoldable pub has_keys : List String → Fields → Bool
unfolding has_other_keys contains keys
has_keys names fields =
    not (has_other_keys names fields) && not (exists (λ k. not (contains k (keys fields))) names)

abbrev pub or_null : Option Json → Json
or_null none = null
or_null (some v) = v

abbrev pub bad_stage : Error
bad_stage = validation "Invalid execution stage settings"

-- a model or an effort, None where it is missing or empty
unfoldable pub check_choice : Json → Result Json
unfolding is_label
check_choice null = ok null
check_choice (str s) =
    if s == ""
    then ok null
    else if is_label s
    then ok (str s)
    else err (validation "Invalid execution model or effort")
check_choice _ = err (validation "Invalid execution model or effort")

unfoldable pub provider_of : Json → Option String
unfolding contains
provider_of (str s) =
    if contains s ("codex_exec" ∷ "antigravity_exec" ∷ "opencode_exec" ∷ "fake" ∷ [])
    then some s
    else none
provider_of _ = none

abbrev pub stage_of : String → Json → Json → Json
stage_of kind model effort =
    obj (field "type" (str kind) (field "model" model (field "reasoning_effort" effort end)))

unfoldable pub stage_with : Option String → Fields → Result Json
unfolding check_choice
stage_with none fields = err (validation "Unsupported execution provider")
stage_with (some kind) fields = check_choice (or_null (member "model" fields)) >>= λ model.
    check_choice (or_null (member "reasoning_effort" fields)) >>= λ effort.
    ok (stage_of kind model effort)

unfoldable pub normalize_stage : Json → Result Json
unfolding has_other_keys provider_of stage_with member
normalize_stage (obj fields) =
    guard (has_other_keys ("type" ∷ "model" ∷ "reasoning_effort" ∷ []) fields) bad_stage
    >> stage_with (provider_of (or_null (member "type" fields))) fields
normalize_stage _ = err bad_stage

abbrev pub stages_of : Json → Json → Json
stages_of research compose = obj (field "research" research (field "compose" compose end))

-- {stage: normalize_stage(…) for stage in STAGES}
unfoldable pub normalize_stages : Json → Json → Result Json
unfolding normalize_stage
normalize_stages research compose = normalize_stage research >>= λ first.
    normalize_stage compose >>= λ second. ok (stages_of first second)

abbrev pub or_default : Option Json → Json → Json
or_default none default = default
or_default (some v) default = v

-- {key: runner.get(key) for key in (…)}
abbrev pub base_stage : Fields → Json
base_stage runner = obj (
    field "type" (or_null (member "type" runner)) (
      field "model" (or_null (member "model" runner))
        (field "reasoning_effort" (or_null (member "reasoning_effort" runner)) end)))

unfoldable pub configured_stages : Fields → Json → Result Json
unfolding has_other_keys normalize_stages member
configured_stages runner (obj configured) =
    guard (has_other_keys ("research" ∷ "compose" ∷ []) configured)
      (validation "Invalid task execution stages")
    >> normalize_stages (or_default (member "research" configured) (base_stage runner))
        (or_default (member "compose" configured) (base_stage runner))
configured_stages runner _ = err (validation "Invalid task execution stages")

-- resolve_task_stages, of the runner's settings
unfoldable pub resolve_task_stages : Fields → Result Json
unfolding configured_stages member
resolve_task_stages runner =
    configured_stages runner (or_default (member "stages" runner) (obj end))
