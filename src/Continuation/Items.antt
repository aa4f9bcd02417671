-- ===== src/Continuation/Items.antt =====
-- tool_continuation.go and responses_input_compat.go: the kinds of the items of a request's input, and
-- what the tool continuation reads off them.
use airgate_openai.Base.{
  if◌then◌else◌, any, Text, codes, trim_space, is_one_of, is_blank, is_text, Bool, true, false, not,
  ◌&&◌, some, List, [], ◌∷◌,
}
use airgate_openai.Base.Json.{
  Json, arr, obj, Fields, items, field_at, string_of, is_string, is_present,
}

unfoldable pub is_tool_call_context_type : Text → Bool
is_tool_call_context_type item_type = is_one_of (trim_space item_type) (
    codes "tool_call"
    ∷ codes "function_call"
    ∷ codes "local_shell_call"
    ∷ codes "tool_search_call"
    ∷ codes "custom_tool_call"
    ∷ codes "mcp_tool_call"
    ∷ [])

unfoldable pub is_tool_output_type : Text → Bool
is_tool_output_type item_type = is_one_of (trim_space item_type) (
    codes "function_call_output"
    ∷ codes "local_shell_call_output"
    ∷ codes "tool_search_output"
    ∷ codes "custom_tool_call_output"
    ∷ codes "mcp_tool_call_output"
    ∷ [])

unfoldable pub is_compaction_type : Text → Bool
is_compaction_type item_type =
    is_one_of (trim_space item_type) (codes "compaction" ∷ codes "compaction_summary" ∷ [])

unfoldable pub is_valid_tool_call_context_item : Text → Fields → Bool
unfolding is_tool_call_context_type
is_valid_tool_call_context_item item_type item =
    if is_blank (string_of (field_at (codes "call_id") item))
    then false
    else if is_text (trim_space item_type) (codes "function_call")
    then not (is_blank (string_of (field_at (codes "name") item)))
      && is_string (field_at (codes "arguments") item)
    else if is_text (trim_space item_type) (codes "custom_tool_call")
    then not (is_blank (string_of (field_at (codes "name") item)))
      && is_present (field_at (codes "input") item)
    else is_tool_call_context_type item_type

unfoldable pub matching_tool_call_type : Text → Text
matching_tool_call_type item_type =
    let t = trim_space item_type in
    if is_text t (codes "function_call_output")
    then codes "function_call"
    else if is_text t (codes "custom_tool_call_output")
    then codes "custom_tool_call"
    else if is_text t (codes "local_shell_call_output")
    then codes "local_shell_call"
    else if is_text t (codes "tool_search_output")
    then codes "tool_search_call"
    else if is_text t (codes "mcp_tool_call_output")
    then codes "mcp_tool_call"
    else []

pub record ToolSignals : Type 0 where
  pub has_tool_output : Bool
  pub has_tool_call_context : Bool

-- One round of the loop of `analyzeToolContinuationSignalsFromMap`.
unfoldable pub see_tool_item : Json → ToolSignals → ToolSignals
unfolding is_tool_output_type is_valid_tool_call_context_item
see_tool_item (obj item) s =
    let t = string_of (field_at (codes "type") item) in
    if is_tool_output_type t
    then record s { has_tool_output = true }
    else if is_tool_call_context_type t && is_valid_tool_call_context_item t item
    then record s { has_tool_call_context = true }
    else s
see_tool_item _ s = s

unfoldable pub see_tool_items : List Json → ToolSignals → ToolSignals
unfolding see_tool_item
see_tool_items [] s = s
see_tool_items (v ∷ vs) s = see_tool_items vs (see_tool_item v s)

abbrev pub no_tool_signals : ToolSignals
no_tool_signals = record { has_tool_output = false; has_tool_call_context = false }

-- The request as a map; a nil map is the empty one.
unfoldable pub tool_signals : Fields → ToolSignals
unfolding see_tool_items
tool_signals req = elim (field_at (codes "input") req) [
  | some (arr vs) ↦ see_tool_items (items vs) no_tool_signals
  | _ ↦ no_tool_signals
]

unfoldable pub needs_previous_response_id : Fields → Bool
unfolding tool_signals
needs_previous_response_id req =
    (tool_signals req).has_tool_output && not (tool_signals req).has_tool_call_context

-- Whether an item keeps `responsesInputHasRecoverableContext` from its `false`.
abbrev pub is_recoverable_item : Json → Bool
is_recoverable_item (obj item) =
    not (is_tool_output_type (trim_space (string_of (field_at (codes "type") item))))
is_recoverable_item _ = true

unfoldable pub has_recoverable_context : Fields → Bool
unfolding is_tool_output_type
has_recoverable_context req = elim (field_at (codes "input") req) [
  | some (arr vs) ↦ any is_recoverable_item (items vs)
  | _ ↦ true
]
