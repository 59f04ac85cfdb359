-- ===== src/Plan/RoundTrip.antt =====
-- A plan that is built is a plan that is accepted, unchanged.
use research_ops_automation.Base.{
  String, Bool, true, false, not, ◌&&◌, ◌||◌, ◌==◌, ◌≡◌, refl, Option, none, some, [], ◌∷◌, exists,
  Result, ok, >>=-ok, guard-ok, validation, arith, if◌then◌else◌,
}
use research_ops_automation.Base.Json.{
  Json, null, bool, num, str, arr, obj, end, field, Fields, member, keys, truth,
}
use research_ops_automation.Base.Text.{contains}
use research_ops_automation.Plan.Stages.{
  normalize_stage, normalize_stages, stage_with, check_choice, provider_of, stage_of, stages_of,
  has_other_keys, has_keys, or_null, bad_stage,
}
use research_ops_automation.Plan.Build.{
  build_execution_plan, validate_execution_plan, plan_of, is_scope, has_stages, is_none, is_source,
  is_message, is_provenance, or_default_provenance, stage_at, is_text_with, plan_keys,
}

choice_again : (v w : Json) → check_choice v ≡ ok w → check_choice w ≡ ok w
unfolding check_choice
choice_again null w h = ground arith
choice_again (str s) w h = ground arith
choice_again (bool b) w h = ground arith
choice_again (num n) w h = ground arith
choice_again (arr xs) w h = ground arith
choice_again (obj fs) w h = ground arith

provider_again :
    (v : Json) (kind : String) → provider_of v ≡ some kind → provider_of (str kind) ≡ some kind
unfolding provider_of contains
provider_again (str s) kind h = ground arith
provider_again null kind h = ground arith
provider_again (bool b) kind h = ground arith
provider_again (num n) kind h = ground arith
provider_again (arr xs) kind h = ground arith
provider_again (obj fs) kind h = ground arith

stage_again :
    (provider : Option String) (fields : Fields) (stage : Json)
    → ((kind : String) → provider ≡ some kind → provider_of (str kind) ≡ some kind)
    → stage_with provider fields ≡ ok stage
    → normalize_stage stage ≡ ok stage
unfolding stage_with normalize_stage has_other_keys contains keys exists member
stage_again none fields stage known h = ground arith
stage_again (some kind) fields stage known h =
    let (model, e, h1) = >>=-ok (check_choice (or_null (member "model" fields))) _ h in
    let (effort, f, h2) = >>=-ok (check_choice (or_null (member "reasoning_effort" fields))) _ h1 in
    let again : normalize_stage (stage_of kind model effort) ≡ ok (stage_of kind model effort) =
      rw (
        known kind refl,
        choice_again (or_null (member "model" fields)) model e,
        choice_again (or_null (member "reasoning_effort" fields)) effort f,
      ) in
    rw (← same h2) again
  where
    same : {a b : Json} → Path (Result Json) (ok a) (ok b) → a ≡ b
    same q = cc

pub normalize_stage-normalize_stage :
    (value stage : Json) → normalize_stage value ≡ ok stage → normalize_stage stage ≡ ok stage
unfolding normalize_stage
normalize_stage-normalize_stage (obj fields) stage h =
    let (_, h1) =
      guard-ok (has_other_keys ("type" ∷ "model" ∷ "reasoning_effort" ∷ []) fields) bad_stage _ h in
    stage_again (provider_of (or_null (member "type" fields))) fields stage
      (λ kind q. provider_again (or_null (member "type" fields)) kind q) h1
normalize_stage-normalize_stage null stage h = cc
normalize_stage-normalize_stage (bool b) stage h = cc
normalize_stage-normalize_stage (num n) stage h = cc
normalize_stage-normalize_stage (str s) stage h = cc
normalize_stage-normalize_stage (arr xs) stage h = cc

-- what a plan that is built has passed
abbrev pub Passed : String → Json → Json → Json → Type 0
Passed scope source provenance message =
    (is_scope scope ≡ true)
    × ((not (is_none source) && not (is_source source)) ≡ false)
    × ((scope == "full" && not (is_none source)) ≡ false)
    × ((if scope == "delivery_only" then not (is_message source message) else not (is_none message))
        ≡ false)
    × (is_provenance provenance ≡ true)

build-Passed :
    (stages : Json) (scope : String) (source selection message plan : Json)
    → build_execution_plan stages scope source selection message ≡ ok plan
    → (normal : Json) × (normalize_stages (stage_at "research" stages) (stage_at "compose" stages)
        ≡ ok normal)
      × (plan ≡ plan_of scope normal source (or_default_provenance selection) message)
      × Passed scope source (or_default_provenance selection) message
unfolding build_execution_plan
build-Passed stages scope source selection message plan h =
    let (a, h1) =
      guard-ok (not (is_scope scope) || not (has_stages stages))
        (validation "Invalid execution scope or stages") _ h in
    let (b, h2) =
      guard-ok (not (is_none source) && not (is_source source))
        (validation "Invalid immutable composition source") _ h1 in
    let (c, h3) =
      guard-ok (scope == "full" && not (is_none source))
        (validation "A full execution cannot reuse composition input") _ h2 in
    let (d, h4) =
      guard-ok
        (if scope == "delivery_only"
          then not (is_message source message)
          else not (is_none message))
        (validation "Invalid immutable prepared message source") _ h3 in
    let (e, h5) =
      guard-ok (not (is_provenance (or_default_provenance selection)))
        (validation "Invalid execution selection source") _ h4 in
    let (normal, f, h6) =
      >>=-ok (normalize_stages (stage_at "research" stages) (stage_at "compose" stages)) _ h5 in
    (normal, f, same h6, (ground (arith, a), b, c, d, ground (arith, e)))
  where
    same : {x y : Json} → Path (Result Json) (ok x) (ok y) → y ≡ x
    same q = cc

stages_again :
    (research compose normal : Json)
    → normalize_stages research compose ≡ ok normal
    → (normalize_stages (stage_at "research" normal) (stage_at "compose" normal) ≡ ok normal)
      × (has_stages normal ≡ true)
unfolding normalize_stages has_stages member has_keys has_other_keys contains keys exists
stages_again research compose normal h =
    let (first, e, h1) = >>=-ok (normalize_stage research) _ h in
    let (second, f, h2) = >>=-ok (normalize_stage compose) _ h1 in
    let again : normalize_stages first second ≡ ok (stages_of first second) = rw (
      normalize_stage-normalize_stage research first e,
      normalize_stage-normalize_stage compose second f,
    ) in
    rw (← same h2) (again, refl)
  where
    same : {x y : Json} → Path (Result Json) (ok x) (ok y) → x ≡ y
    same q = cc

provenance_kept : (v : Json) → is_provenance v ≡ true → or_default_provenance v ≡ v
unfolding is_provenance is_text_with truth member
provenance_kept (obj end) h = ground arith
provenance_kept (obj (field k v fs)) h = refl
provenance_kept null h = cc
provenance_kept (bool b) h = cc
provenance_kept (num n) h = cc
provenance_kept (str s) h = cc
provenance_kept (arr xs) h = cc

built_again :
    (scope : String) (normal source provenance message : Json)
    → Passed scope source provenance message
    → normalize_stages (stage_at "research" normal) (stage_at "compose" normal) ≡ ok normal
    → has_stages normal ≡ true
    → build_execution_plan normal scope source provenance message
      ≡ ok (plan_of scope normal source provenance message)
unfolding build_execution_plan
built_again scope normal source provenance message (a, b, c, d, e) again there =
    rw (a, there, b, c, d, provenance_kept provenance e, e, again)

null_of : (m : Json) → not (is_none m) ≡ false → null ≡ m
unfolding is_none
null_of null h = refl
null_of (bool b) h = cc
null_of (num n) h = cc
null_of (str s) h = cc
null_of (arr xs) h = cc
null_of (obj fs) h = cc

abbrev plan_fields : Bool → String → Json → Json → Json → Json → Fields
plan_fields b scope stages source provenance message = field "schema_version" (num 1) (
    field "scope" (str scope) (
      field "stages" stages (
        field "source_composition" source (
          field "selection_source" provenance
            (if b then field "source_message" message end else end)))))

plan_has_keys :
    (b : Bool) (scope : String) (stages source provenance message : Json)
    → has_keys (plan_keys b) (plan_fields b scope stages source provenance message) ≡ true
unfolding has_keys has_other_keys contains keys exists
plan_has_keys true scope stages source provenance message = refl
plan_has_keys false scope stages source provenance message = refl

message_back :
    (scope : String) (source message : Json)
    → (if scope == "delivery_only" then not (is_message source message) else not (is_none message))
      ≡ false
    → (b : Bool) → (scope == "delivery_only") ≡ b
    → or_null (member "source_message" (if b then field "source_message" message end else end))
      ≡ message
unfolding member
message_back scope source message h true e = refl
message_back scope source message h false e = null_of message (rw e at h)

-- A plan that build_execution_plan gives is accepted by validate_execution_plan, unchanged.
pub validate-build :
    (stages : Json) (scope : String) (source selection message plan : Json)
    → build_execution_plan stages scope source selection message ≡ ok plan
    → validate_execution_plan plan ≡ ok plan
unfolding validate_execution_plan member
validate-build stages scope source selection message plan h =
    let (normal, f, made, passed) = build-Passed stages scope source selection message plan h in
    let (again, there) =
      stages_again (stage_at "research" stages) (stage_at "compose" stages) normal f in
    let built =
      built_again scope normal source (or_default_provenance selection) message passed again
        there in
    rw made (
      rw (
        plan_has_keys (scope == "delivery_only") scope normal source
            (or_default_provenance selection) message,
        message_back scope source message passed.3 (scope == "delivery_only") refl,
        built,
      ))
