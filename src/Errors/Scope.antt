-- ===== src/Errors/Scope.antt =====
-- backend/internal/gateway/responses_failure.go and outcome.go: where the core may try again, and what it
-- may hold against an account.
use airgate_openai.Base.{
  Text, join_space, ℕ, ◌≤◌, ◌≡◌, sym, ◌∙◌, ◌≢◌, ◌⊎◌, Bool, true, false, Option, some, [], ◌∷◌,
  arith,
}
use airgate_openai.Base.Int.{ℤ}
use airgate_openai.Base.Json.{Json, obj, Fields}
use airgate_openai.Errors.Codes.{normalize_explicit_upstream_error_code}
use airgate_openai.Errors.Classify.{
  OutcomeKind, classify_http_failure, classify_http_failure_response, client_error,
  account_rate_limited, family_transient, upstream_transient, stream_aborted,
  is_encrypted_content_verification_error, is_model_unsupported_text, is_overloaded_text,
}
use airgate_openai.Errors.Failure.{
  client, encrypted_content, rate_limited, no_scope, dispatch_candidate, Failure,
  classify_rejection, classify_normalized, classify_responses_error, outcome_kind,
  failover_scope_for_kind, with_upstream_error,
}
use airgate_openai.Errors.Events.{
  Payload, Reader, apply_rate_limit_reset, classify_node, is_explicit_safety_rejected_payload,
}
use airgate_openai.Errors.Outcome.{
  Err, upstream_error, open_ai_error_body, ForwardOutcome, failed_outcome, committed,
  response_failure_outcome, failure_outcome, failover_scope_for_http_failure,
}

-- The texts that the tests join.
abbrev pub joined : Text → Text → Text → Text
joined t c m = join_space (t ∷ normalize_explicit_upstream_error_code c ∷ m ∷ [])

module _ (parse_retry_delay : Text → ℤ) where
  rejection_scope :
      (t c m : Text) → (classify_rejection parse_retry_delay t c m).failover_scope ≡ no_scope
  unfolding classify_rejection
  rejection_scope t c m = ground arith

  rejection_kind :
      (t c m : Text) → (classify_rejection parse_retry_delay t c m).kind ≢ encrypted_content
  unfolding classify_rejection
  rejection_kind t c m h = ground arith

  normalized_scope :
      (t c m : Text)
      → (classify_normalized parse_retry_delay t c m).failover_scope ≡ dispatch_candidate
      → (is_model_unsupported_text (join_space (t ∷ c ∷ m ∷ [])) ≡ true)
        × ((classify_normalized parse_retry_delay t c m).kind ≡ client)
        × (is_encrypted_content_verification_error (join_space (t ∷ c ∷ m ∷ [])) ≡ false)
  unfolding classify_normalized
  normalized_scope t c m h = let q = rejection_scope t c m in ground arith

  normalized_encrypted :
      (t c m : Text)
      → is_encrypted_content_verification_error (join_space (t ∷ c ∷ m ∷ [])) ≡ true
      → (classify_normalized parse_retry_delay t c m).kind ≡ encrypted_content
  unfolding classify_normalized
  normalized_encrypted t c m h = ground arith

  rejection_limited :
      (t c m : Text)
      → (classify_rejection parse_retry_delay t c m).kind ≡ rate_limited
      → (is_overloaded_text (join_space (t ∷ c ∷ m ∷ [])) ≡ false)
        × ((classify_rejection parse_retry_delay t c m).retry_after ≡ parse_retry_delay m)
  unfolding classify_rejection
  rejection_limited t c m h = ground arith

-- Once output has begun, the core is never told to try elsewhere and never to hold the failure against
-- an account: it is the client's error, or an aborted stream.
pub response_failure_outcome-started :
    (kind_name : OutcomeKind → Text) (r : Reader) (err : Err) (event : Payload) (elapsed : ℕ)
    → let o = response_failure_outcome kind_name r err event true elapsed in
      (o.failover_scope ≡ no_scope) × ((o.kind ≡ client_error) ⊎ (o.kind ≡ stream_aborted))
unfolding response_failure_outcome committed
response_failure_outcome-started kind_name r err event elapsed = ground arith

-- Before output has begun, a failed stream is the client's error, a limit or an overload of the
-- model's family, or a fault of the upstream: no stream kills an account or exhausts its quota.
pub response_failure_outcome-kind :
    (kind_name : OutcomeKind → Text) (r : Reader) (err : Err) (event : Payload) (elapsed : ℕ)
    → let o = response_failure_outcome kind_name r err event false elapsed in
      (o.kind ≡ client_error)
      ⊎ (o.kind ≡ account_rate_limited)
      ⊎ (o.kind ≡ family_transient)
      ⊎ (o.kind ≡ upstream_transient)
unfolding response_failure_outcome committed failed_outcome outcome_kind
response_failure_outcome-kind kind_name r err event elapsed = ground arith

scope_of_committed :
    (kind_name : OutcomeKind → Text) (started : Bool) (o : ForwardOutcome) (code : Text)
    → (committed kind_name started o code).0.failover_scope ≡ dispatch_candidate
    → (started ≡ false) × (o.failover_scope ≡ dispatch_candidate)
unfolding committed
scope_of_committed kind_name started o code h = ground arith

scope_of_failed :
    (kind_name : OutcomeKind → Text) (text : Text) (e : Failure) (safety : Bool) (elapsed : ℕ)
    → (failed_outcome kind_name
        (record { text = text; failure = some e })
        safety
        elapsed).0.failover_scope
      ≡ dispatch_candidate
    → e.failover_scope ≡ dispatch_candidate
unfolding failed_outcome failover_scope_for_kind
scope_of_failed kind_name text e safety elapsed h = ground arith

scope_of_wrapped :
    (v : Option Json) (e : Failure) → (with_upstream_error v e).failover_scope ≡ e.failover_scope
unfolding with_upstream_error
scope_of_wrapped v e = ground arith

scope_of_reset :
    (r : Reader) (v : Option Json) (e : Failure)
    → (apply_rate_limit_reset r v e).failover_scope ≡ e.failover_scope
unfolding apply_rate_limit_reset
scope_of_reset r v e = ground arith

scope_of_node :
    (r : Reader) (t c m : Text) (v : Option Json)
    → (classify_node r t c m v).failover_scope
      ≡ (classify_normalized r.retry_delay t
          (normalize_explicit_upstream_error_code c)
          m).failover_scope
unfolding classify_node classify_responses_error
scope_of_node r t c m v = scope_of_wrapped v _ ∙ scope_of_reset r v _

-- For an error that is classified by its type, its code and its message, another mapped model is
-- tried only before output has begun, and only if these texts tell of a model that is not supported
-- and of no encrypted content that fails its check.
pub response_failure_outcome-dispatch :
    (kind_name : OutcomeKind → Text) (r : Reader) (t c m : Text) (v : Option Json) (event : Payload)
    (started : Bool) (elapsed : ℕ)
    → (response_failure_outcome kind_name r
        (record { text = m; failure = some (classify_node r t c m v) })
        event
        started
        elapsed).failover_scope
      ≡ dispatch_candidate
    → (started ≡ false)
      × (is_model_unsupported_text (joined t c m) ≡ true)
      × (is_encrypted_content_verification_error (joined t c m) ≡ false)
unfolding response_failure_outcome
response_failure_outcome-dispatch kind_name r t c m v event started elapsed h =
    let s = is_explicit_safety_rejected_payload r event in
    let a = scope_of_committed kind_name started _ _ h in
    let b = scope_of_failed kind_name m (classify_node r t c m v) s elapsed a.1 in
    let d =
      normalized_scope r.retry_delay t (normalize_explicit_upstream_error_code c) m
        (sym (scope_of_node r t c m v) ∙ b) in
    (a.0, d.0, d.2)

-- Of a failure over HTTP, another mapped model is tried only for a client's error that tells of a model
-- that is not supported, with no word of encrypted content.
pub failure_outcome-dispatch :
    (disabled : Text → Bool) (decimal : ℕ → Text) (r : Reader) (status : ℕ) (body : Payload)
    (m : Text) (delay : ℤ)
    → let o = failure_outcome disabled decimal r status body m delay in
      o.failover_scope ≡ dispatch_candidate
      → (o.kind ≡ client_error)
        × (is_model_unsupported_text m ≡ true)
        × (is_encrypted_content_verification_error m ≡ false)
        × (400 ≤ status)
unfolding failure_outcome failover_scope_for_http_failure classify_http_failure_response
    classify_http_failure
failure_outcome-dispatch disabled decimal r status body m delay h = ground arith

-- What a failure that is told from encrypted content keeps of the error's own object.
encrypted_node :
    (r : Reader) (t c m : Text) (fs : Fields)
    → is_encrypted_content_verification_error (joined t c m) ≡ true
    → let e = classify_node r t c m (some (obj fs)) in
      (e.kind ≡ encrypted_content) × (e.status_code ≡ 400) × (e.upstream_error_body ≡ some (obj fs))
unfolding classify_node classify_responses_error classify_normalized with_upstream_error
    apply_rate_limit_reset
encrypted_node r t c m fs h = ground arith

encrypted_outcome :
    (kind_name : OutcomeKind → Text) (r : Reader) (text : Text) (e : Failure) (v : Json)
    (event : Payload) (started : Bool) (elapsed : ℕ)
    → e.kind ≡ encrypted_content
    → e.status_code ≡ 400
    → e.upstream_error_body ≡ some v
    → let o =
        response_failure_outcome kind_name r
          (record { text = text; failure = some e })
          event
          started
          elapsed in
      (o.kind ≡ client_error)
      × (o.failover_scope ≡ no_scope)
      × (o.status_code ≡ 400)
      × (o.body ≡ upstream_error v)
unfolding response_failure_outcome committed failed_outcome outcome_kind failover_scope_for_kind
    open_ai_error_body
encrypted_outcome kind_name r text e v event started elapsed k s b = ground arith

-- An error, read from an object, whose texts tell of encrypted content that fails its check goes
-- back to the client with the status 400 and that object as its body: no account is blamed, and no
-- other model tried.
pub response_failure_outcome-encrypted :
    (kind_name : OutcomeKind → Text) (r : Reader) (t c m : Text) (fs : Fields) (event : Payload)
    (started : Bool) (elapsed : ℕ)
    → is_encrypted_content_verification_error (joined t c m) ≡ true
    → let o =
        response_failure_outcome kind_name r
          (record { text = m; failure = some (classify_node r t c m (some (obj fs))) })
          event
          started
          elapsed in
      (o.kind ≡ client_error)
      × (o.failover_scope ≡ no_scope)
      × (o.status_code ≡ 400)
      × (o.body ≡ upstream_error (obj fs))
response_failure_outcome-encrypted kind_name r t c m fs event started elapsed h =
    let e = encrypted_node r t c m fs h in
    encrypted_outcome kind_name r m _ (obj fs) event started elapsed e.0 e.1 e.2
