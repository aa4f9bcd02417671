-- ===== src/Basispoints/Plans.antt =====
-- backend/internal/basispoints/plan.go: what a translated plan is.
use airgate_openai.Base.{Text, codes, GoMap, ◌≡◌, ◌⊎◌, true, Option, some, [], ◌∷◌}
use airgate_openai.Base.Int.{ℤ}
use airgate_openai.Base.Json.{
  Json, null, str, arr, obj, Items, Fields, end, field, field_at, string_of,
}
use airgate_openai.Basispoints.Schema.{plan_schema_accepts}
use airgate_openai.Basispoints.Plan.{PlanTool, plan_call}
use airgate_openai.Basispoints.Steps.{IsUnder, AreStepsOf}
use airgate_openai.Basispoints.Calls.{IsDeclaredOnce}

-- Beside the steps there is nothing, or an explanation that is among the native arguments.
abbrev pub IsExplained : Fields → Fields → Type 0
IsExplained arguments rest =
    (rest ≡ end)
    ⊎ ((s : Text) × (rest ≡ field (codes "explanation") (str s) end)
        × IsUnder arguments s (codes "explanation" ∷ codes "summary" ∷ []))

-- The arguments for the client: the steps, and perhaps an explanation.
pub record IsPlan (arguments : Fields) (v : Json) : Type 0 where
  pub native_steps : Items
  pub is_native : field_at (codes "plan") arguments ≡ some (arr native_steps)
  pub steps : Items
  pub rest : Fields
  pub is_plan : v ≡ obj (field (codes "plan") (arr steps) rest)
  pub each : AreStepsOf native_steps steps
  pub explained : IsExplained arguments rest

module _ (int64 : Text → Option ℤ) (decode : Text → Option Json) (marshal : Json → Text)
    (fingerprint : Text → Text) where
  -- The native arguments: an object, or a text that decodes to one, or to `null` for an empty one.
  abbrev pub AreArguments : Option Json → Fields → Type 0
  AreArguments native arguments =
      (native ≡ some (obj arguments))
      ⊎ (decode (string_of native) ≡ some (obj arguments))
      ⊎ ((decode (string_of native) ≡ some null) × (arguments ≡ end))

  -- What the call for the client is, when there is one.
  pub record Translated (tools : GoMap Text PlanTool) (native call : Fields) : Type 0 where
    pub tool : PlanTool
    pub declared : IsDeclaredOnce tools tool
    pub arguments : Fields
    pub are_arguments : AreArguments (field_at (codes "arguments") native) arguments
    pub plan : Json
    pub is_plan : IsPlan arguments plan
    pub accepted : plan_schema_accepts int64 plan tool.parameters ≡ true
    pub is_call :
        call
        ≡ plan_call int64 decode marshal fingerprint tool
            (string_of (field_at (codes "id") native))
            (string_of (field_at (codes "call_id") native))
            plan
    pub named : field_at (codes "name") call ≡ some (str tool.name)
    pub carries : field_at (codes "arguments") call ≡ some (str (marshal plan))
    pub same_id :
        field_at (codes "call_id") call ≡ some (str (string_of (field_at (codes "call_id") native)))
