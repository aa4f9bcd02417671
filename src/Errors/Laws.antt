-- ===== src/Errors/Laws.antt =====
-- What the classification of upstream failures guarantees to the accounts.
use airgate_openai.Base.{if◌then◌else◌, Text, ℕ, ◌≤◌, ◌<◌, ◌≡◌, ◌↔◌, ◌⊎◌, Bool, true, false, arith}
use airgate_openai.Errors.Classify.{
  success, client_error, account_dead, account_quota_exhausted, family_transient,
  upstream_transient, Body, is_overloaded_text, is_temporary_rate_limit_text,
  is_disabled_account_text, is_deactivated_workspace_text, is_web_socket_payment_required_text,
  has_quota_exhaustion_code, is_balance_exhaustion, is_hash_rejection, classify_http_failure,
  classify_http_failure_response,
}

module _ (disabled : Text → Bool) (status : ℕ) where
  -- A status is a success exactly when it is below 400, whatever the message says.
  pub classify_http_failure-success :
      (message : Text) → (classify_http_failure disabled status message ≡ success) ↔ (status < 400)
  unfolding classify_http_failure
  classify_http_failure-success message = (λ h. ground arith, λ h. ground arith)

  -- A server error is never held against the account: it is transient, for the model's family if
  -- the message tells of overload, and for the upstream otherwise.
  pub classify_http_failure-server_error :
      (message : Text)
      → 500 ≤ status
      → classify_http_failure disabled status message
        ≡ (if is_overloaded_text message then family_transient else upstream_transient)
  unfolding classify_http_failure
  classify_http_failure-server_error message h = ground arith

  -- Only a 400, 401, 402 or 403 kills an account, never with a message that tells of overload, and
  -- but for 401 only with a message that says so: a 402 with one of a deactivated workspace or of a
  -- payment that a web socket requires, a 400 and a 403 with one of a disabled account that is no
  -- temporary limit of the rate.
  pub classify_http_failure-account_dead :
      (message : Text)
      → classify_http_failure disabled status message ≡ account_dead
      → (is_overloaded_text message ≡ false)
        × ((status ≡ 401)
            ⊎ ((status ≡ 402)
                × ((is_deactivated_workspace_text message ≡ true)
                    ⊎ (is_web_socket_payment_required_text message ≡ true)))
            ⊎ (((status ≡ 400) ⊎ (status ≡ 403))
                × (is_disabled_account_text disabled message ≡ true)
                × (is_temporary_rate_limit_text message ≡ false)))
  unfolding classify_http_failure
  classify_http_failure-account_dead message h = ground arith

  -- An account's quota is held to be exhausted exactly when a 402 or a 403 that is no explicit
  -- rejection of the content says so, by a code or by its text.
  pub classify_http_failure_response-quota :
      (is_letter : ℕ → Bool) (body : Body) (message : Text)
      → (classify_http_failure_response is_letter disabled status body message
          ≡ account_quota_exhausted)
        ↔ (((status ≡ 402) ⊎ (status ≡ 403))
            × (is_hash_rejection body.explicit ≡ false)
            × ((has_quota_exhaustion_code is_letter body.found_codes ≡ true)
                ⊎ (is_balance_exhaustion message body.text ≡ true)))
  unfolding classify_http_failure_response classify_http_failure
  classify_http_failure_response-quota is_letter body message =
      (λ h. ground arith, λ h. ground arith)

  -- An explicit rejection of the content is the client's error, under every status of an error.
  pub classify_http_failure_response-rejection :
      (is_letter : ℕ → Bool) (body : Body) (message : Text)
      → 400 ≤ status
      → is_hash_rejection body.explicit ≡ true
      → classify_http_failure_response is_letter disabled status body message ≡ client_error
  unfolding classify_http_failure_response
  classify_http_failure_response-rejection is_letter body message h r = ground arith
