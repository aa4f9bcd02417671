-- ===== src/Errors/Outcome.antt =====
-- backend/internal/gateway/responses_failure.go, outcome.go and continuation_recovery.go: what a failure
-- reports to the core, which selects the account, cools it down and tries again.
use airgate_openai.Base.{
  if◌then◌else◌, Text, codes, is_empty, is_text, ℕ, suc, max, Bool, true, false, not, ◌&&◌, ◌||◌,
  Option, none, some, [], ◌++◌,
}
use airgate_openai.Base.Int.{ℤ, pos, negsuc}
use airgate_openai.Base.Json.{text_of, member, Json}
use airgate_openai.Errors.Classify.{
  OutcomeKind, client_error, account_rate_limited, account_dead, upstream_transient, stream_aborted,
  classify_http_failure_response, is_encrypted_content_verification_error,
  is_model_unsupported_text,
}
use airgate_openai.Errors.Keywords.{open_ai_error_type_for_status}
use airgate_openai.Errors.Failure.{
  rate_limited, FailoverScope, no_scope, dispatch_candidate, Failure, outcome_kind, upstream_reason,
  failover_scope_for_kind, code_or_kind, is_safety_rejected,
}
use airgate_openai.Errors.Events.{
  error_node, Payload, Reader, Rejection, parse_explicit_upstream_error,
  is_explicit_safety_rejected_payload, body_of, classify_generic_sse_error_event,
}

-- A Go error: its text, and the failure that `errors.As` finds in it.
pub record Err : Type 0 where
  pub text : Text
  pub failure : Option Failure

-- A body of the response: the upstream's, or one that the program writes.
pub data ErrorBody : Type 0 where
  upstream_body : Payload → ErrorBody
  upstream_error : Json → ErrorBody
  open_ai_error : (type_name code message : Text) → ErrorBody
  anthropic_error : (type_name code message : Text) → ErrorBody
  no_body : ErrorBody

-- `sdk.ForwardOutcome`, without the headers and the usage.
pub record ForwardOutcome : Type 0 where
  pub kind : OutcomeKind
  pub failover_scope : FailoverScope
  pub safety_rejected : Bool
  pub status_code : ℕ
  pub body : ErrorBody
  pub reason : Text
  pub retry_after : ℤ
  pub duration : ℕ

abbrev pub transient_outcome : Text → ForwardOutcome
transient_outcome why = record {
  kind = upstream_transient;
  failover_scope = no_scope;
  safety_rejected = false;
  status_code = 502;
  body = no_body;
  reason = why;
  retry_after = pos 0;
  duration = 0;
}

abbrev pub account_dead_outcome : Text → ForwardOutcome
account_dead_outcome why = record (transient_outcome why) { kind = account_dead; status_code = 401 }

abbrev is_client_error : OutcomeKind → Bool
is_client_error k = elim k [ client_error ↦ true | _ ↦ false ]

unfoldable pub open_ai_error_body : Failure → Text → ErrorBody
open_ai_error_body e code = elim e.upstream_error_body [
  | some node ↦ upstream_error node
  | none ↦ open_ai_error (open_ai_error_type_for_status e.status_code) code e.message
]

-- The part of `responseFailureOutcome` that reads the failure, and the texts of the body.
unfoldable pub failed_outcome : (OutcomeKind → Text) → Err → Bool → ℕ → ForwardOutcome × Text × Text
failed_outcome kind_name err safety elapsed = elim err.failure [
  | none ↦ (
    record (transient_outcome err.text) { duration = elapsed; safety_rejected = safety },
    kind_name upstream_transient,
    err.text,
  )
  | some e ↦ (
    record {
      kind = outcome_kind e;
      failover_scope = failover_scope_for_kind e (outcome_kind e);
      safety_rejected = safety || is_safety_rejected e;
      status_code = e.status_code;
      body = no_body;
      reason = upstream_reason e;
      retry_after = e.retry_after;
      duration = elapsed;
    },
    code_or_kind e,
    e.message,
  )
]

-- What follows once output has begun.
unfoldable pub committed :
    (OutcomeKind → Text) → Bool → ForwardOutcome → Text → ForwardOutcome × Text
committed kind_name output_started o code =
    if not output_started
    then (o, code)
    else if is_client_error o.kind
    then (record o { failover_scope = no_scope }, code)
    else (record o { failover_scope = no_scope; kind = stream_aborted }, kind_name stream_aborted)

unfoldable pub response_failure_outcome :
    (OutcomeKind → Text) → Reader → Err → Payload → Bool → ℕ → ForwardOutcome
unfolding failed_outcome committed
response_failure_outcome kind_name r err failed_event output_started elapsed =
    let found =
      failed_outcome kind_name err (is_explicit_safety_rejected_payload r failed_event) elapsed in
    let o = committed kind_name output_started found.0 found.1 in
    record o.0 {
      body = elim err.failure [
        | none ↦ open_ai_error (open_ai_error_type_for_status o.0.status_code) o.1 found.2
        | some e ↦ open_ai_error_body e o.1
      ];
    }

-- `imageRateLimitMinRetryAfter`, a minute in nanoseconds.
abbrev pub image_rate_limit_min_retry_after : ℕ
image_rate_limit_min_retry_after = 60_000_000_000

abbrev at_least : ℕ → ℤ → ℤ
at_least m (pos d) = pos (max m d)
at_least m (negsuc d) = pos m

unfoldable pub apply_image_rate_limit_policy : ForwardOutcome → ForwardOutcome
apply_image_rate_limit_policy o = elim o.kind [
  | account_rate_limited ↦ record o {
    retry_after = at_least image_rate_limit_min_retry_after o.retry_after;
  }
  | _ ↦ o
]

abbrev is_encrypted_rejection : Option Rejection → Bool
is_encrypted_rejection none = false
is_encrypted_rejection (some e) = is_text e.code (codes "invalid_encrypted_content")

unfoldable pub failover_scope_for_http_failure :
    Reader → OutcomeKind → Payload → Text → FailoverScope
failover_scope_for_http_failure r k body message =
    if is_encrypted_rejection (parse_explicit_upstream_error r body)
    then no_scope
    else if is_encrypted_content_verification_error message
    then no_scope
    else if is_client_error k && is_model_unsupported_text message
    then dispatch_candidate
    else no_scope

abbrev is_positive : ℤ → Bool
is_positive (pos (suc n)) = true
is_positive _ = false

abbrev named_delay : ℤ → Option Failure → ℤ
named_delay delay none = delay
named_delay delay (some e) = elim e.kind [ rate_limited ↦ e.retry_after | _ ↦ delay ]

-- The delay of a rate limit that came without one.
unfoldable pub rate_limit_delay : Reader → Payload → Text → ℤ → ℤ
rate_limit_delay r body message delay =
    let named = named_delay delay (classify_generic_sse_error_event r body) in
    if is_positive delay then delay else if is_positive named then named else r.retry_delay message

-- The matcher of disabled accounts and the printing of a status are parameters.
unfoldable pub failure_outcome :
    (Text → Bool) → (ℕ → Text) → Reader → ℕ → Payload → Text → ℤ → ForwardOutcome
failure_outcome disabled decimal r status body message delay =
    let k = classify_http_failure_response r.is_letter disabled status (body_of r body) message in
    record {
      kind = k;
      failover_scope = failover_scope_for_http_failure r k body message;
      safety_rejected = is_explicit_safety_rejected_payload r body;
      status_code = status;
      body = upstream_body body;
      reason =
          if is_empty message then [] else codes "HTTP " ++ decimal status ++ codes ": " ++ message;
      retry_after = elim k [
        | account_rate_limited ↦ rate_limit_delay r body message delay
        | _ ↦ delay
      ];
      duration = 0;
    }

-- `forwardErrForOutcome`
unfoldable pub forward_err_for_outcome {ℓ} : {E : Type ℓ} → ForwardOutcome → Option E → Option E
forward_err_for_outcome o err = if is_client_error o.kind then none else err

-- `classifyAnthropicBody`
unfoldable pub classify_anthropic_body : (Text → Bool) → Reader → ℕ → Payload → OutcomeKind
classify_anthropic_body disabled r status body =
    let message = text_of r.raw (member (codes "message") (error_node body.json)) in
    classify_http_failure_response r.is_letter disabled status (body_of r body)
      (if is_empty message then body.bytes else message)
