-- ===== src/Timing/Events.antt =====
-- Which events hold output of the model. The raw text that `gjson` gives of a value is a parameter.
use airgate_openai.Base.{
  if◌then◌else◌, any, Text, codes, is_empty, trim_space, has_prefix, is_one_of, is_blank, is_text,
  Bool, true, false, not, ◌||◌, Option, none, some, List, [], ◌∷◌, ◌++◌,
}
use mathlib.Core.List.{reverse}
use airgate_openai.Base.Json.{Json, null, str, arr, cons, items, text_of, member, is_present}

-- `gjson`'s `Array`
abbrev pub array_of : Option Json → List Json
array_of none = []
array_of (some null) = []
array_of (some (arr vs)) = items vs
array_of (some v) = v ∷ []

-- Whether `path.#` is above zero.
abbrev pub has_elements : Option Json → Bool
has_elements (some (arr (cons v vs))) = true
has_elements _ = false

-- `strings.HasSuffix`
abbrev pub has_suffix : Text → Text → Bool
has_suffix s p = has_prefix (reverse s) (reverse p)

module _ (raw : Json → Text) where
  abbrev says : Text → Option Json → Bool
  says k v = not (is_empty (text_of raw (member k v)))

  abbrev says_any : List Text → Option Json → Bool
  says_any [] v = false
  says_any (k ∷ ks) v = says k v || says_any ks v

  unfoldable pub is_response_tool_call_item : Text → Bool
  is_response_tool_call_item item_type =
      let t = trim_space item_type in
      is_one_of t (codes "function_call" ∷ codes "custom_tool_call" ∷ [])
      || has_suffix t (codes "_call")

  -- Encrypted content that is a text and not blank.
  abbrev has_encrypted_content : Option Json → Bool
  has_encrypted_content (some (str s)) = not (is_blank s)
  has_encrypted_content _ = false

  unfoldable pub response_item_has_model_output : Option Json → Bool
  unfolding is_response_tool_call_item
  response_item_has_model_output item =
      let item_type = trim_space (text_of raw (member (codes "type") item)) in
      if is_text item_type (codes "compaction")
      then has_encrypted_content (member (codes "encrypted_content") item)
      else is_text item_type (codes "reasoning")
        || is_response_tool_call_item item_type
        || any (λ c. says_any (codes "text" ∷ codes "refusal" ∷ []) (some c))
            (array_of (member (codes "content") item))
        || any (λ c. says (codes "text") (some c)) (array_of (member (codes "summary") item))

  unfoldable pub response_event_contains_completed_output : Option Json → Bool
  response_event_contains_completed_output event =
      any (λ item. response_item_has_model_output (some item))
        (array_of (member (codes "output") (member (codes "response") event)))

  unfoldable pub is_response_output_event : Text → Option Json → Bool
  is_response_output_event event_type event =
      if is_one_of event_type (
        codes "response.output_text.delta"
        ∷ codes "response.reasoning_summary_text.delta"
        ∷ codes "response.reasoning_text.delta"
        ∷ codes "response.refusal.delta"
        ∷ codes "response.function_call_arguments.delta"
        ∷ codes "response.custom_tool_call_input.delta"
        ∷ codes "response.mcp_call_arguments.delta"
        ∷ codes "response.code_interpreter_call_code.delta"
        ∷ [])
      then says (codes "delta") event
      else if is_one_of event_type
          (codes "response.output_item.added" ∷ codes "response.output_item.done" ∷ [])
      then response_item_has_model_output (member (codes "item") event)
      else if is_text event_type (codes "response.function_call_arguments.done")
      then is_present (member (codes "arguments") event)
      else if is_text event_type (codes "response.custom_tool_call_input.done")
      then is_present (member (codes "input") event)
      else if is_one_of event_type (
          codes "response.output_text.done"
          ∷ codes "response.reasoning_summary_text.done"
          ∷ codes "response.reasoning_text.done"
          ∷ [])
      then says (codes "text") event
      else if is_text event_type (codes "response.refusal.done")
      then says (codes "refusal") event
      else if is_one_of event_type
          (codes "response.content_part.added" ∷ codes "response.content_part.done" ∷ [])
      then says_any (codes "text" ∷ codes "refusal" ∷ []) (member (codes "part") event)
      else if is_one_of event_type
          (codes "response.completed" ∷ codes "response.done" ∷ codes "response.incomplete" ∷ [])
      then response_event_contains_completed_output event
      else false

  -- What is asked of a delta, and of a message.
  abbrev speaks : List Text → Option Json → Bool
  speaks keys part =
      says_any keys part
      || has_elements (member (codes "tool_calls") part)
      || is_present (member (codes "function_call") part)

  unfoldable pub choice_has_output : Json → Bool
  choice_has_output choice =
      let spoken =
        codes "content" ∷ codes "reasoning_content" ∷ codes "reasoning" ∷ codes "thinking" ∷ [] in
      says (codes "text") (some choice)
      || speaks (spoken ++ codes "refusal" ∷ []) (member (codes "delta") (some choice))
      || speaks spoken (member (codes "message") (some choice))

  unfoldable pub is_chat_completions_output : Option Json → Bool
  is_chat_completions_output event =
      any choice_has_output (array_of (member (codes "choices") event))
