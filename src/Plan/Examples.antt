-- ===== src/Plan/Examples.antt =====
-- The execution plan's theorems and definitions on a small plan.
use research_ops_automation.Base.{exists, ◌≡◌, refl, ok}
use research_ops_automation.Base.Json.{Json, null, num, str, obj, end, field}
use research_ops_automation.Plan.Stages.{normalize_stage, stage_of, stages_of}
use research_ops_automation.Plan.Build.{build_execution_plan, validate_execution_plan, plan_of}
use research_ops_automation.Plan.RoundTrip.{normalize_stage-normalize_stage, validate-build}

abbrev given : Json
given = obj (field "type" (str "fake") (field "model" (str "") end))

normal : normalize_stage given ≡ ok (stage_of "fake" null null)
unfolding normalize_stage exists
normal = refl

normalize_stage-normalize_stage_example :
    normalize_stage (stage_of "fake" null null) ≡ ok (stage_of "fake" null null)
normalize_stage-normalize_stage_example =
    normalize_stage-normalize_stage given (stage_of "fake" null null) normal

abbrev source : Json
source = obj (
    field "run_id" (str "run-1") (
      field "revision" (num 2) (
        field "input_sha256"
          (str "aaaaaaaaaaaaaaaaaaaaaaaaaaaaaaaaaaaaaaaaaaaaaaaaaaaaaaaaaaaaaaaa") end)))

abbrev plan : Json
plan =
    plan_of "compose_only" (stages_of (stage_of "fake" null null) (stage_of "fake" null null))
      source (obj (field "kind" (str "manual") end)) null

built :
    build_execution_plan
      (stages_of given given)
      "compose_only"
      source
      (obj (field "kind" (str "manual") end))
      null
    ≡ ok plan
unfolding build_execution_plan exists
built = refl

validate-build_example : validate_execution_plan plan ≡ ok plan
validate-build_example =
    validate-build (stages_of given given) "compose_only" source
      (obj (field "kind" (str "manual") end)) null plan built
