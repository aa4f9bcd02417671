-- ===== src/Errors/Anchors.antt =====
-- backend/internal/gateway/continuation_recovery.go: what an outcome tells of the request's context.
use airgate_openai.Base.{
  leb, if◌then◌else◌, Text, trim_space, is_blank, ℕ, ◌≡◌, ◌⊎◌, inl, inr, Bool, true, false, not,
  ◌||◌, none, some, [], ◌∷◌, arith,
}
use airgate_openai.Errors.Classify.{OutcomeKind, client_error}
use airgate_openai.Errors.Keywords.{is_context_too_large_error}
use airgate_openai.Errors.Failure.{
  Failure, classify_responses_error, is_encrypted_content_failure,
  is_previous_response_not_found_failure, is_function_call_output_without_call_failure,
  is_context_too_large_failure,
}
use airgate_openai.Errors.Events.{Payload, Reader, classify_open_ai_error_body}

-- What the questions read of an outcome; the body is the upstream's, in bytes.
pub record Answer : Type 0 where
  pub kind : OutcomeKind
  pub status_code : ℕ
  pub body : Payload
  pub reason : Text

abbrev is_client_error : OutcomeKind → Bool
is_client_error k = elim k [ client_error ↦ true | _ ↦ false ]

unfoldable pub is_error_answer : Answer → Bool
is_error_answer o = is_client_error o.kind || leb 400 o.status_code

-- The three functions differ in the question that they put to a failure, and in what they make of a
-- reason that is not blank.
unfoldable asks : Reader → (Failure → Bool) → (Text → Bool) → Answer → Bool
asks r question of_reason o =
    let by_reason = if is_blank o.reason then false else of_reason (trim_space o.reason) in
    if not (is_error_answer o) then false else elim (classify_open_ai_error_body r o.body) [
      | none ↦ by_reason
      | some e ↦
          if is_encrypted_content_failure e then false else if question e then true else by_reason
    ]

abbrev reason_failure : Reader → Text → Failure
reason_failure r reason = classify_responses_error r.retry_delay [] [] reason

unfoldable pub outcome_is_previous_response_not_found : Reader → Answer → Bool
unfolding asks
outcome_is_previous_response_not_found r o =
    asks r is_previous_response_not_found_failure
      (λ reason. is_previous_response_not_found_failure (reason_failure r reason)) o

unfoldable pub outcome_is_function_call_output_without_call : Reader → Answer → Bool
unfolding asks
outcome_is_function_call_output_without_call r o =
    asks r is_function_call_output_without_call_failure
      (λ reason. is_function_call_output_without_call_failure (reason_failure r reason)) o

unfoldable pub outcome_is_context_too_large : Reader → Answer → Bool
unfolding asks
outcome_is_context_too_large r o =
    asks r is_context_too_large_failure
      (λ reason.
        is_context_too_large_failure (reason_failure r reason)
        || is_context_too_large_error (reason ∷ []))
      o

-- Whether the request's context is worth a repair.
abbrev pub wants_repair : Reader → Answer → Bool
wants_repair r o =
    outcome_is_previous_response_not_found r o
    || outcome_is_function_call_output_without_call r o
    || outcome_is_context_too_large r o

-- Encrypted content that fails its check is never answered by a repair of the request, whatever the
-- reason says; nor is an answer below the status 400 that is not the client's error.
pub wants_repair_none :
    (r : Reader) (o : Answer)
    → (is_error_answer o ≡ false)
      ⊎ ((e : Failure) × (classify_open_ai_error_body r o.body ≡ some e)
          × (is_encrypted_content_failure e ≡ true))
    → wants_repair r o ≡ false
unfolding outcome_is_previous_response_not_found outcome_is_function_call_output_without_call
    outcome_is_context_too_large
wants_repair_none r o (inl h) = ground arith
wants_repair_none r o (inr (e, h, k)) = ground arith
