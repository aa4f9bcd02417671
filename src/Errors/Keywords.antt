-- ===== src/Errors/Keywords.antt =====
-- backend/internal/gateway/responses_failure.go and stream.go: the words by which the errors of a stream
-- are told apart, and the error types of anthropic_response.go.
use airgate_openai.Base.{
  leb, ◌==◌, if◌then◌else◌, Text, codes, is_empty, trim_space, to_lower, contains, contains_any,
  is_one_of, join_space, is_blank, is_text, ℕ, Bool, false, not, ◌&&◌, ◌||◌, List, [], ◌∷◌, map,
}

unfoldable pub any_contains : List Text → Text → Bool
any_contains [] k = false
any_contains (h ∷ hs) k = contains h k || any_contains hs k

abbrev lowered : List Text → List Text
lowered hs = map to_lower hs

unfoldable pub found_in : List Text → List Text → Bool
unfolding any_contains
found_in hs [] = false
found_in hs (k ∷ ks) =
    let rest = found_in hs ks in
    if is_empty (to_lower k) then rest else any_contains hs (to_lower k) || rest

-- `containsAny`, of the three texts and the words.
unfoldable pub contains_any_of : Text → Text → Text → List Text → Bool
unfolding found_in
contains_any_of a b c [] = false
contains_any_of a b c (k ∷ ks) = found_in (lowered (a ∷ b ∷ c ∷ [])) (k ∷ ks)

-- The loop of `containsAnyInParts`, on the joined text.
unfoldable pub contains_trimmed : Text → List Text → Bool
contains_trimmed text [] = false
contains_trimmed text (k ∷ ks) =
    let keyword = to_lower (trim_space k) in
    let rest = contains_trimmed text ks in (not (is_empty keyword) && contains text keyword) || rest

unfoldable pub contains_any_in_parts : List Text → List Text → Bool
contains_any_in_parts parts keywords =
    let text = to_lower (join_space parts) in
    if is_blank text then false else contains_trimmed text keywords

abbrev pub entity_too_large : List Text
entity_too_large =
    codes "request_too_large"
    ∷ codes "payload too large"
    ∷ codes "request entity too large"
    ∷ codes "message too big"
    ∷ codes "status 413"
    ∷ codes "http 413"
    ∷ codes " 413"
    ∷ []

abbrev pub context_too_large : List Text
context_too_large =
    codes "context_length"
    ∷ codes "context_too_large"
    ∷ codes "context length"
    ∷ codes "context window"
    ∷ codes "input_too_long"
    ∷ codes "max_input_tokens"
    ∷ codes "token limit"
    ∷ codes "too many tokens"
    ∷ entity_too_large

unfoldable pub is_context_too_large_error : List Text → Bool
is_context_too_large_error parts = contains_any_in_parts parts context_too_large

unfoldable pub context_too_large_status : List Text → ℕ
context_too_large_status parts = if contains_any_in_parts parts entity_too_large then 413 else 400

unfoldable pub is_invalid_image_code : List Text → Bool
is_invalid_image_code [] = false
is_invalid_image_code (p ∷ ps) =
    is_one_of (to_lower (trim_space p))
      (codes "invalid_image_data" ∷ codes "invalid_image_format" ∷ codes "invalid_image" ∷ [])
    || is_invalid_image_code ps

unfoldable pub is_invalid_image_input_text : List Text → Bool
is_invalid_image_input_text parts =
    let s = to_lower (join_space parts) in
    is_invalid_image_code parts
    || (not (is_blank s)
        && (contains_any s (
              codes "does not represent a valid image"
              ∷ codes "unsupported image format"
              ∷ codes "image format is not supported"
              ∷ codes "could not decode image"
              ∷ codes "couldn't decode image"
              ∷ codes "cannot decode image"
              ∷ codes "failed to decode image"
              ∷ codes "image data is invalid"
              ∷ codes "invalid image data"
              ∷ [])
            || (contains s (codes "image") && contains s (codes "supported image formats"))))

unfoldable pub is_function_call_output_without_call_error : List Text → Bool
is_function_call_output_without_call_error parts =
    let s = to_lower (join_space parts) in
    not (is_blank s)
    && (contains s (codes "no tool call found for function call output")
        || (contains_any s (codes "function_call_output" ∷ codes "function call output" ∷ [])
            && contains_any s (
                codes "matching call_id"
                ∷ codes "matched call_id"
                ∷ codes "without the matching"
                ∷ codes "no matching"
                ∷ codes "not found"
                ∷ [])))

-- What the codes of an error tell of its type.
unfoldable pub type_of_code : Text → Text
type_of_code code =
    if is_one_of code
      (codes "context_length_exceeded" ∷ codes "max_tokens_exceeded" ∷ codes "input_too_long" ∷ [])
    then codes "invalid_request_error"
    else if is_text code (codes "rate_limit_exceeded")
    then codes "rate_limit_error"
    else if is_one_of code (
        codes "overloaded"
        ∷ codes "service_overloaded"
        ∷ codes "model_overloaded"
        ∷ codes "engine_overloaded"
        ∷ [])
    then codes "overloaded_error"
    else if is_one_of code (
        codes "insufficient_quota"
        ∷ codes "quota_exceeded"
        ∷ codes "billing_hard_limit_reached"
        ∷ [])
    then codes "permission_error"
    else codes "api_error"

unfoldable pub map_responses_error_type : Text → Text → Text
map_responses_error_type err_type err_code =
    let t = to_lower (trim_space err_type) in
    if is_one_of t (
      codes "invalid_request_error"
      ∷ codes "rate_limit_error"
      ∷ codes "authentication_error"
      ∷ codes "not_found_error"
      ∷ codes "overloaded_error"
      ∷ codes "permission_error"
      ∷ [])
    then t
    else if is_one_of t (codes "server_error" ∷ codes "internal_error" ∷ [])
    then codes "overloaded_error"
    else if is_one_of t
        (codes "insufficient_quota" ∷ codes "billing_not_active" ∷ codes "permission_denied" ∷ [])
    then codes "permission_error"
    else type_of_code (to_lower (trim_space err_code))

-- `anthropicErrorType` and `openAIErrorTypeForStatus`
unfoldable pub anthropic_error_type : ℕ → Text
anthropic_error_type status =
    if status == 400
    then codes "invalid_request_error"
    else if status == 401
    then codes "authentication_error"
    else if status == 403
    then codes "permission_error"
    else if status == 404
    then codes "not_found_error"
    else if status == 422
    then codes "invalid_model_error"
    else if status == 429
    then codes "rate_limit_error"
    else if status == 529
    then codes "overloaded_error"
    else codes "api_error"

unfoldable pub open_ai_error_type_for_status : ℕ → Text
open_ai_error_type_for_status status =
    if status == 429
    then codes "rate_limit_error"
    else if leb 500 status
    then codes "server_error"
    else codes "invalid_request_error"
