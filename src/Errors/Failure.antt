-- ===== src/Errors/Failure.antt =====
-- backend/internal/gateway/responses_failure.go: the failure that the error of a stream stands for.
use airgate_openai.Base.{
  contains, contains_any, to_lower, if◌then◌else◌, Text, codes, is_empty, trim_space, join_space,
  is_blank, is_text, ℕ, Bool, true, false, not, ◌&&◌, ◌||◌, Option, none, some, List, [], ◌∷◌,
}
use airgate_openai.Base.Int.{ℤ, pos}
use airgate_openai.Base.Json.{Json, obj}
use airgate_openai.Errors.Codes.{
  cybersecurity_risk_error_code, prompt_usage_policy_error_code, safety_rejection_code,
  normalize_explicit_upstream_error_code, is_explicit_safety_rejected_code,
}
use airgate_openai.Errors.Classify.{
  OutcomeKind, client_error, account_rate_limited, family_transient, upstream_transient,
  is_encrypted_content_verification_error, is_overloaded_text, is_temporary_rate_limit_text,
  is_model_unsupported_text,
}
use airgate_openai.Errors.Keywords.{
  contains_any_of, is_context_too_large_error, context_too_large_status,
  is_invalid_image_input_text, is_function_call_output_without_call_error, map_responses_error_type,
}

pub data FailureKind : Type 0 where
  client continuation_anchor encrypted_content rate_limited overload server : FailureKind

-- `sdk.FailoverScope`, as far as the program sets it.
pub data FailoverScope : Type 0 where
  no_scope dispatch_candidate : FailoverScope

-- `responsesFailureError`; the body kept is the error node that `withUpstreamError` wraps.
pub record Failure : Type 0 where
  pub kind : FailureKind
  pub status_code : ℕ
  pub anthropic_error_type : Text
  pub code : Text
  pub message : Text
  pub upstream_message : Text
  pub upstream_error_body : Option Json
  pub retry_after : ℤ
  pub failover_scope : FailoverScope

abbrev pub context_too_large_message : Text
context_too_large_message =
    codes
      "Your input exceeds the context window of this model. Please adjust your input and try again."

abbrev pub invalid_image_input_code : Text
invalid_image_input_code = codes "invalid_image_data"

abbrev pub invalid_image_input_message : Text
invalid_image_input_message =
    codes
      "The image data you provided does not represent a valid image. Please check your input and try again with one of the supported image formats: ['image/jpeg', 'image/png', 'image/gif', 'image/webp']."

abbrev pub cybersecurity_risk_message : Text
cybersecurity_risk_message =
    codes
      "This content was flagged for possible cybersecurity risk. If this seems wrong, try rephrasing your request. To get authorized for security work, join the Trusted Access for Cyber program: https://chatgpt.com/cyber"

unfoldable pub is_cybersecurity_risk_rejection_text : List Text → Bool
is_cybersecurity_risk_rejection_text values =
    contains (to_lower (join_space values)) (to_lower cybersecurity_risk_message)

unfoldable pub is_safety_rejection_text : List Text → Bool
is_safety_rejection_text values =
    let s = to_lower (join_space values) in
    is_cybersecurity_risk_rejection_text values
    || (contains s (codes "safety") && contains_any s (codes "reject" ∷ codes "block" ∷ []))
    || contains_any s (
        codes "content_policy"
        ∷ codes "content policy violation"
        ∷ codes "policy_violation"
        ∷ codes "blocked by policy"
        ∷ codes "blocked by our safety"
        ∷ codes "moderation_blocked"
        ∷ codes "moderation blocked"
        ∷ [])

-- A literal of the type: the fields it names, and zero for the rest.
abbrev failed : FailureKind → ℕ → Text → Text → Text → Failure
failed k s t c m = record {
  kind = k;
  status_code = s;
  anthropic_error_type = t;
  code = c;
  message = m;
  upstream_message = [];
  upstream_error_body = none;
  retry_after = pos 0;
  failover_scope = no_scope;
}

abbrev invalid_request : Text
invalid_request = codes "invalid_request_error"

abbrev client_words : List Text
client_words =
    codes "invalid_prompt"
    ∷ codes "invalid_request"
    ∷ codes "input_too_long"
    ∷ codes "is not supported"
    ∷ codes "unsupported"
    ∷ codes "model_not_found"
    ∷ codes "model not found"
    ∷ codes "invalid model"
    ∷ codes "invalid_model"
    ∷ codes "does not exist"
    ∷ []

-- The delay that a message names (`parseRetryDelay`: a regular expression and a float) is a parameter.
module _ (parse_retry_delay : Text → ℤ) where
  -- The cases from the explicit rejections on, the code being normalized.
  unfoldable pub classify_rejection : Text → Text → Text → Failure
  classify_rejection t c msg =
      let text = join_space (t ∷ c ∷ msg ∷ []) in
      if is_text c cybersecurity_risk_error_code
      then failed client 400 invalid_request cybersecurity_risk_error_code
          cybersecurity_risk_message
      else if is_text c prompt_usage_policy_error_code
      then failed client 400 invalid_request prompt_usage_policy_error_code msg
      else if is_explicit_safety_rejected_code c
      then failed client 400 invalid_request safety_rejection_code msg
      else if contains_any_of t c msg client_words
      then failed client 400 invalid_request [] msg
      else if is_overloaded_text text
      then failed overload 502 (codes "overloaded_error") (codes "overloaded") msg
      else if is_temporary_rate_limit_text text
          || contains_any_of t c msg
              (codes "usage_limit_reached" ∷ codes "rate_limit_exceeded" ∷ [])
      then record (failed rate_limited 429 (codes "rate_limit_error") [] msg) {
        retry_after = parse_retry_delay msg;
      }
      else failed server 502 (map_responses_error_type t c) [] msg

  -- All cases, the code being normalized.
  unfoldable pub classify_normalized : Text → Text → Text → Failure
  classify_normalized t c msg =
      let parts = t ∷ c ∷ msg ∷ [] in
      if is_text c (codes "invalid_encrypted_content")
      then failed encrypted_content 400 invalid_request (codes "invalid_encrypted_content") msg
      else if is_encrypted_content_verification_error (join_space parts)
      then failed encrypted_content 400 invalid_request [] msg
      else if contains_any_of t c msg (
          codes "previous_response_not_found"
          ∷ codes "previous response"
          ∷ codes "response not found"
          ∷ [])
      then failed continuation_anchor 400 invalid_request (codes "previous_response_not_found") msg
      else if is_function_call_output_without_call_error parts
      then failed continuation_anchor 400 invalid_request
          (codes "function_call_output_without_call") msg
      else if is_context_too_large_error parts
      then failed client (context_too_large_status parts) invalid_request
          (codes "context_too_large") context_too_large_message
      else if is_invalid_image_input_text parts
      then record (failed client 400 invalid_request invalid_image_input_code
          invalid_image_input_message) { upstream_message = msg }
      else if is_model_unsupported_text (join_space parts)
      then record (failed client 400 (codes "invalid_model_error") [] msg) {
        failover_scope = dispatch_candidate;
      }
      else classify_rejection t c msg

  unfoldable pub classify_responses_error : Text → Text → Text → Failure
  classify_responses_error err_type err_code msg =
      classify_normalized err_type (normalize_explicit_upstream_error_code err_code) msg

-- The methods of a failure, on one that is not nil.
unfoldable pub outcome_kind : Failure → OutcomeKind
outcome_kind e = elim e.kind [
  | client ↦ client_error
  | continuation_anchor ↦ client_error
  | encrypted_content ↦ client_error
  | rate_limited ↦ account_rate_limited
  | overload ↦ family_transient
  | server ↦ upstream_transient
]

unfoldable pub upstream_reason : Failure → Text
upstream_reason e =
    let message = trim_space e.upstream_message in if is_empty message then e.message else message

abbrev pub is_encrypted_content_failure : Failure → Bool
is_encrypted_content_failure e = elim e.kind [ encrypted_content ↦ true | _ ↦ false ]

unfoldable pub should_return_client_error : Failure → Bool
should_return_client_error e = elim e.kind [ client ↦ true | encrypted_content ↦ true | _ ↦ false ]

unfoldable pub is_continuation_anchor_error : Failure → Bool
is_continuation_anchor_error e = elim e.kind [ continuation_anchor ↦ true | _ ↦ false ]

unfoldable pub is_invalid_image_input_failure : Failure → Bool
is_invalid_image_input_failure e = is_text e.code invalid_image_input_code

abbrev is_client_error : OutcomeKind → Bool
is_client_error k = elim k [ client_error ↦ true | _ ↦ false ]

unfoldable pub failover_scope_for_kind : Failure → OutcomeKind → FailoverScope
failover_scope_for_kind e k =
    if not (is_client_error k) || is_encrypted_content_failure e then no_scope else e.failover_scope

abbrev pub kind_text : FailureKind → Text
kind_text client = codes "client"
kind_text continuation_anchor = codes "continuation_anchor"
kind_text encrypted_content = codes "encrypted_content"
kind_text rate_limited = codes "rate_limited"
kind_text overload = codes "family_transient"
kind_text server = codes "server"

unfoldable pub code_or_kind : Failure → Text
code_or_kind e = if not (is_blank e.code) then e.code else kind_text e.kind

unfoldable pub is_safety_rejected : Failure → Bool
is_safety_rejected e = is_explicit_safety_rejected_code e.code

unfoldable pub with_upstream_error : Option Json → Failure → Failure
with_upstream_error (some (obj fs)) e =
    if is_encrypted_content_failure e then record e { upstream_error_body = some (obj fs) } else e
with_upstream_error _ e = e

-- The questions of continuation_recovery.go about a failure.
unfoldable pub is_previous_response_not_found_failure : Failure → Bool
is_previous_response_not_found_failure e =
    is_continuation_anchor_error e
    && is_text (trim_space e.code) (codes "previous_response_not_found")

unfoldable pub is_function_call_output_without_call_failure : Failure → Bool
is_function_call_output_without_call_failure e =
    is_continuation_anchor_error e
    && is_text (trim_space e.code) (codes "function_call_output_without_call")

unfoldable pub is_context_too_large_failure : Failure → Bool
is_context_too_large_failure e = elim e.kind [
  | client ↦ is_text (trim_space e.code) (codes "context_too_large")
  | _ ↦ false
]
