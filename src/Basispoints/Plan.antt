-- ===== src/Basispoints/Plan.antt =====
-- backend/internal/basispoints/plan.go: a native `update_plan` call as a call of the client's own tool.
-- JSON, the literals of numbers and the hash of a call's id are parameters.
use airgate_openai.Base.{
  ◌==◌, if◌then◌else◌, Text, codes, Text-discrete, is_empty, trim_space, to_lower, is_one_of,
  is_blank, is_text, GoMap, get, ◌⊎◌, inl, inr, Bool, true, false, not, ◌&&◌, ◌||◌, Option, none,
  some, List, [], ◌∷◌, ◌++◌, map,
}
use airgate_openai.Base.Int.{ℤ}
use airgate_openai.Base.Json.{
  Json, null, str, arr, obj, Items, nil, cons, Fields, end, field, field_at, set_field, string_of,
}
use airgate_openai.Basispoints.Schema.{plan_schema_accepts}

-- What is read of a tool of the bridge.
pub record PlanTool : Type 0 where
  pub name : Text
  pub namespace : Text
  pub kind : Text
  pub parameters : Fields

-- The errors, in the order of the checks.
pub data PlanError : Type 0 where
  no_function_call ambiguous_declaration no_plan_schema no_arguments no_plan_array no_object_entry
        no_description bad_status bad_explanation schema_refused no_call_id :
      PlanError

abbrev pub map_result {ℓ κ μ} : {E : Type ℓ} {A : Type κ} {B : Type μ} → (A → B) → E ⊎ A → E ⊎ B
map_result f (inl e) = inl e
map_result f (inr a) = inr (f a)

infixl 5 ◌>>>◌
abbrev pub ◌>>>◌ {ℓ κ μ} : {E : Type ℓ} {A : Type κ} {B : Type μ} → E ⊎ A → (A → E ⊎ B) → E ⊎ B
inl e >>> f = inl e
inr a >>> f = f a

abbrev pub require : PlanError → Bool → PlanError ⊎ Unit {0}
require e true = inr tt
require e false = inl e

-- `planTextAlias` from a field on: `none` is its error, `some none` a text that is not there.
unfoldable pub alias_from : Option Text → Fields → List Text → Option (Option Text)
alias_from found fs [] = some found
alias_from found fs (k ∷ ks) = elim (field_at k fs) [
  | none ↦ alias_from found fs ks
  | some (str s) ↦ elim found [
    | none ↦ alias_from (some s) fs ks
    | some t ↦ let rest = alias_from (some s) fs ks in if is_text t s then rest else none
  ]
  | some _ ↦ none
]

unfoldable pub plan_text_alias : Fields → List Text → Option (Option Text)
plan_text_alias fs keys = alias_from none fs keys

-- `-` and the space become `_`.
abbrev underscored : Text → Text
underscored s = map (λ c. if c == b'-' || c == b' ' then b'_' else c) s

abbrev pub pending : Text
pending = codes "pending"

abbrev pub in_progress : Text
in_progress = codes "in_progress"

abbrev pub completed : Text
completed = codes "completed"

unfoldable pub normalize_native_plan_status : Text → Text
normalize_native_plan_status status =
    let s = underscored (to_lower (trim_space status)) in
    if is_one_of s (
      codes "pending"
      ∷ codes "not_started"
      ∷ codes "todo"
      ∷ codes "planned"
      ∷ codes "queued"
      ∷ codes "blocked"
      ∷ [])
    then pending
    else if is_one_of s (
        codes "in_progress"
        ∷ codes "active"
        ∷ codes "started"
        ∷ codes "doing"
        ∷ codes "current"
        ∷ [])
    then in_progress
    else if is_one_of s
        (codes "completed" ∷ codes "complete" ∷ codes "done" ∷ codes "finished" ∷ [])
    then completed
    else []

abbrev pub described : Option (Option Text) → PlanError ⊎ Text
described (some (some s)) = if is_blank s then inl no_description else inr s
described _ = inl no_description

abbrev pub with_status : Text → Text → PlanError ⊎ Json
with_status description status =
    if is_empty status
    then inl bad_status
    else inr
        (obj (field (codes "step") (str description) (field (codes "status") (str status) end)))

unfoldable pub translate_step : Json → PlanError ⊎ Json
translate_step (obj step) =
    described (plan_text_alias step (codes "step" ∷ codes "description" ∷ codes "title" ∷ []))
    >>> λ description.
        with_status description
          (normalize_native_plan_status (string_of (field_at (codes "status") step)))
translate_step value = inl no_object_entry

unfoldable pub translate_steps : Items → PlanError ⊎ Items
translate_steps nil = inr nil
translate_steps (cons v vs) = translate_step v >>> λ w. map_result (cons w) (translate_steps vs)

abbrev pub with_explanation : Json → Option (Option Text) → PlanError ⊎ Json
with_explanation plan none = inl bad_explanation
with_explanation plan (some none) = inr (obj (field (codes "plan") plan end))
with_explanation plan (some (some s)) =
    inr (obj (field (codes "plan") plan (field (codes "explanation") (str s) end)))

abbrev pub plan_steps : Option Json → PlanError ⊎ Items
plan_steps (some (arr steps)) = inr steps
plan_steps _ = inl no_plan_array

-- The arguments of the client's call, from those of the native one.
unfoldable pub translate_arguments : Fields → PlanError ⊎ Json
translate_arguments arguments = plan_steps (field_at (codes "plan") arguments) >>> λ steps.
    translate_steps steps >>> λ plan.
    with_explanation (arr plan)
      (plan_text_alias arguments (codes "explanation" ∷ codes "summary" ∷ []))

-- The one tool that is declared under either name.
unfoldable pub selected_tool : GoMap Text PlanTool → Option PlanTool
selected_tool tools = elim (get Text-discrete (codes "update_plan") tools) [
  | none ↦ get Text-discrete (codes "functions.update_plan") tools
  | some t ↦ elim (get Text-discrete (codes "functions.update_plan") tools) [
    | none ↦ some t
    | some u ↦ none
  ]
]

abbrev pub function_tool : Option PlanTool → PlanError ⊎ PlanTool
function_tool none = inl ambiguous_declaration
function_tool (some t) =
    if is_text t.kind (codes "function") then inr t else inl ambiguous_declaration

-- Whether the schema has a property `plan` that is not null.
abbrev names_plan : Option Json → Bool
names_plan (some (obj properties)) = elim (field_at (codes "plan") properties) [
  | none ↦ false
  | some null ↦ false
  | some v ↦ true
]
names_plan _ = false

unfoldable pub is_plan_schema : Fields → Bool
is_plan_schema schema =
    is_text (string_of (field_at (codes "type") schema)) (codes "object")
    && names_plan (field_at (codes "properties") schema)

unfoldable pub is_update_plan : Fields → Bool
is_update_plan native =
    is_text (string_of (field_at (codes "type") native)) (codes "function_call")
    && is_one_of (string_of (field_at (codes "name") native))
        (codes "update_plan" ∷ codes "functions.update_plan" ∷ [])

-- What was decoded: an object, or the `null` that leaves the map empty.
abbrev pub arguments_within : Option Json → PlanError ⊎ Fields
arguments_within (some (obj fs)) = inr fs
arguments_within (some null) = inr end
arguments_within _ = inl no_arguments

module _ (int64 : Text → Option ℤ) (decode : Text → Option Json) (marshal : Json → Text)
    (fingerprint : Text → Text) where
  -- The native arguments, an object or a text that holds one; `null` decodes to an empty one.
  unfoldable pub arguments_of : Option Json → PlanError ⊎ Fields
  arguments_of (some (obj fs)) = inr fs
  arguments_of raw = arguments_within (decode (string_of raw))

  abbrev pub item_id : Text → Text → Text
  item_id id call_id = if is_empty id then codes "fc_" ++ fingerprint call_id else id

  abbrev pub with_namespace : Text → Fields → Fields
  with_namespace namespace fs =
      if is_empty namespace then fs else set_field (codes "namespace") (str namespace) fs

  unfoldable pub plan_call : PlanTool → Text → Text → Json → Fields
  plan_call t id call_id translated = with_namespace t.namespace (
      field (codes "type") (str (codes "function_call")) (
        field (codes "id") (str (item_id id call_id)) (
          field (codes "call_id") (str call_id) (
            field (codes "name") (str t.name) (
              field (codes "arguments") (str (marshal translated))
                (field (codes "status") (str completed) end))))))

  -- All but the replay that the bridge remembers under the call's id.
  unfoldable pub translate_native_plan : GoMap Text PlanTool → Fields → PlanError ⊎ Fields
  translate_native_plan tools native = require no_function_call (is_update_plan native) >>> λ _.
      function_tool (selected_tool tools) >>> λ t.
      require no_plan_schema (is_plan_schema t.parameters) >>> λ _.
      arguments_of (field_at (codes "arguments") native) >>> λ arguments.
      translate_arguments arguments >>> λ translated.
      require schema_refused (plan_schema_accepts int64 translated t.parameters) >>> λ _.
      (let call_id = string_of (field_at (codes "call_id") native) in
        require no_call_id (not (is_empty call_id) && is_text (trim_space call_id) call_id) >>> λ _.
        inr (plan_call t (string_of (field_at (codes "id") native)) call_id translated))
