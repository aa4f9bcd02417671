-- ===== src/Basispoints/Calls.antt =====
-- backend/internal/basispoints/plan.go: the tool of a translated plan and the fields of its call.
use airgate_openai.Base.{
  Option-cases, if_neg, ◌≢◌, get, Text-discrete, arith, Bool-cases, if_true, if_false, Text, codes,
  is_empty, GoMap, ◌≡◌, ap, ◌∙◌, ◌⊎◌, inl, inr, Option, none, some, [],
}
use airgate_openai.Base.Int.{ℤ}
use airgate_openai.Base.Json.{Json, str, field_at, field_at-set_field}
use airgate_openai.Basispoints.Plan.{PlanTool, selected_tool, plan_call}

-- The tool is declared under one of the two names, and nothing is under the other.
abbrev pub IsDeclaredOnce : GoMap Text PlanTool → PlanTool → Type 0
IsDeclaredOnce tools t =
    ((get Text-discrete (codes "update_plan") tools ≡ some t)
      × (get Text-discrete (codes "functions.update_plan") tools ≡ none))
    ⊎ ((get Text-discrete (codes "update_plan") tools ≡ none)
        × (get Text-discrete (codes "functions.update_plan") tools ≡ some t))

pub selected_tool-once :
    (tools : GoMap Text PlanTool) (t : PlanTool)
    → selected_tool tools ≡ some t
    → IsDeclaredOnce tools t
unfolding selected_tool
selected_tool-once tools t h = elim (Option-cases (get Text-discrete (codes "update_plan") tools)) [
  | inl e ↦ inr (e, ground arith)
  | inr (u, e) ↦ elim (Option-cases (get Text-discrete (codes "functions.update_plan") tools)) [
    | inl n ↦ inl (ground arith, n)
    | inr (w, d) ↦ absurd (ground arith)
  ]
]

module _ (int64 : Text → Option ℤ) (decode : Text → Option Json) (marshal : Json → Text)
    (fingerprint : Text → Text) where
  -- Beside its namespace, a call has the fields that it was made with.
  call_field :
      (t : PlanTool) (id call_id : Text) (v : Json) (k : Text)
      → codes "namespace" ≢ k
      → field_at k (plan_call int64 decode marshal fingerprint t id call_id v)
        ≡ field_at k
            (plan_call int64 decode marshal fingerprint (record t { namespace = [] }) id call_id v)
  unfolding plan_call
  call_field t id call_id v k n = elim (Bool-cases (is_empty t.namespace)) [
    | inl e ↦ ap (field_at k) (if_true _ _ e)
    | inr e ↦
        ap (field_at k) (if_false _ _ e)
        ∙ field_at-set_field k (codes "namespace") (str t.namespace) _
        ∙ if_neg (Text-discrete (codes "namespace") k) n _ _
  ]

  pub call_name :
      (t : PlanTool) (id call_id : Text) (v : Json)
      → field_at (codes "name") (plan_call int64 decode marshal fingerprint t id call_id v)
        ≡ some (str t.name)
  unfolding plan_call field_at Text-discrete
  call_name t id call_id v = call_field t id call_id v (codes "name") (λ e. ground arith)

  pub call_arguments :
      (t : PlanTool) (id call_id : Text) (v : Json)
      → field_at (codes "arguments") (plan_call int64 decode marshal fingerprint t id call_id v)
        ≡ some (str (marshal v))
  unfolding plan_call field_at Text-discrete
  call_arguments t id call_id v = call_field t id call_id v (codes "arguments") (λ e. ground arith)

  pub call_id_kept :
      (t : PlanTool) (id call_id : Text) (v : Json)
      → field_at (codes "call_id") (plan_call int64 decode marshal fingerprint t id call_id v)
        ≡ some (str call_id)
  unfolding plan_call field_at Text-discrete
  call_id_kept t id call_id v = call_field t id call_id v (codes "call_id") (λ e. ground arith)
