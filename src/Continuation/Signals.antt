-- ===== src/Continuation/Signals.antt =====
-- continuation_recovery.go: the signals that are read off a request's input and messages.
use airgate_openai.Base.{
  if◌then◌else◌, codes, trim_space, to_lower, is_one_of, is_text, Bool, true, false, not, ◌&&◌,
  Option, some, List, [], ◌∷◌,
}
use airgate_openai.Base.Json.{Json, arr, obj, Fields, items, field_at, string_of, is_present}
use airgate_openai.Continuation.Items.{
  is_tool_output_type, is_tool_call_context_type, is_valid_tool_call_context_item,
  is_compaction_type,
}

pub record Signals : Type 0 where
  pub has_tool_output : Bool
  pub has_tool_call_context : Bool
  pub has_compaction_replay : Bool

abbrev pub no_signals : Signals
no_signals = record {
  has_tool_output = false;
  has_tool_call_context = false;
  has_compaction_replay = false;
}

abbrev pub with_output : Bool → Signals → Signals
with_output b s = if b then record s { has_tool_output = true } else s

abbrev pub with_context : Bool → Signals → Signals
with_context b s = if b then record s { has_tool_call_context = true } else s

abbrev pub with_compaction : Bool → Signals → Signals
with_compaction b s = if b then record s { has_compaction_replay = true } else s

unfoldable pub see_input_item : Fields → Signals → Signals
unfolding is_tool_output_type is_valid_tool_call_context_item is_compaction_type
see_input_item item s =
    let t = trim_space (string_of (field_at (codes "type") item)) in
    let s' = with_compaction (is_compaction_type t) s in
    if is_tool_output_type t
    then record s' { has_tool_output = true }
    else if is_tool_call_context_type t
    then with_context (is_valid_tool_call_context_item t item) s'
    else s'

unfoldable pub see_input_items : List Json → Signals → Signals
unfolding see_input_item
see_input_items [] s = s
see_input_items (obj item ∷ vs) s = see_input_items vs (see_input_item item s)
see_input_items (_ ∷ vs) s = see_input_items vs s

unfoldable pub see_input : Option Json → Signals → Signals
unfolding see_input_items
see_input (some (arr vs)) s = see_input_items (items vs) s
see_input (some (obj item)) s = see_input_item item s
see_input _ s = s

unfoldable pub see_content_item : Fields → Signals → Signals
see_content_item item s =
    let t = trim_space (string_of (field_at (codes "type") item)) in
    if is_one_of t (codes "compaction" ∷ codes "compaction_summary" ∷ [])
    then record s { has_compaction_replay = true }
    else if is_text t (codes "tool_result")
    then record s { has_tool_output = true }
    else with_context (is_text t (codes "tool_use")) s

unfoldable pub see_content_items : List Json → Signals → Signals
unfolding see_content_item
see_content_items [] s = s
see_content_items (obj item ∷ vs) s = see_content_items vs (see_content_item item s)
see_content_items (_ ∷ vs) s = see_content_items vs s

unfoldable pub see_content : Option Json → Signals → Signals
unfolding see_content_items
see_content (some (arr vs)) s = see_content_items (items vs) s
see_content (some (obj item)) s = see_content_item item s
see_content _ s = s

unfoldable pub see_message : Fields → Signals → Signals
unfolding see_content
see_message msg s =
    let role = to_lower (trim_space (string_of (field_at (codes "role") msg))) in
    let is_assistant = is_text role (codes "assistant") in
    see_content (field_at (codes "content") msg) (
      with_context (is_assistant && is_present (field_at (codes "function_call") msg)) (
        with_context (is_assistant && is_present (field_at (codes "tool_calls") msg))
          (with_output (is_text role (codes "tool")) s)))

unfoldable pub see_messages : List Json → Signals → Signals
unfolding see_message
see_messages [] s = s
see_messages (obj msg ∷ vs) s = see_messages vs (see_message msg s)
see_messages (_ ∷ vs) s = see_messages vs s

unfoldable pub see_message_list : Option Json → Signals → Signals
unfolding see_messages
see_message_list (some (arr vs)) s = see_messages (items vs) s
see_message_list _ s = s

-- `analyzePreviousResponseRecoverySignals`; a nil map is the empty one.
unfoldable pub signals_of : Fields → Signals
unfolding see_input see_message_list
signals_of req =
    see_message_list (field_at (codes "messages") req)
      (see_input (field_at (codes "input") req) no_signals)

-- A tool's output without the call that it answers.
abbrev pub is_orphaned : Signals → Bool
is_orphaned s = s.has_tool_output && (not s.has_tool_call_context && not s.has_compaction_replay)
