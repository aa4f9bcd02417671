-- ===== src/Errors/Classify.antt =====
-- backend/internal/gateway/errors.go and outcome.go: which outcome an upstream failure has. An error
-- body comes as what the JSON reader (a third-party package) finds in it. The regular expression
-- for disabled accounts is a parameter, the matcher `disabled`.
use airgate_openai.Base.{
  leb, ◌==◌, if◌then◌else◌, Text, codes, is_empty, take_bytes, trim_space, to_lower, contains,
  contains_any, is_one_of, ℕ, Bool, false, not, ◌&&◌, ◌||◌, Option, none, some, List, [], ◌∷◌, ◌++◌,
  map,
}
use airgate_openai.Errors.Codes.{is_explicit_text_hash_rejection_code}

-- `sdk.OutcomeKind`
pub data OutcomeKind : Type 0 where
  success client_error account_rate_limited account_dead account_unavailable account_quota_exhausted
        family_transient upstream_transient stream_aborted :
      OutcomeKind

-- What is read from an error body: the code of an explicit error, the texts at `error.code`,
-- `response.error.code` and `code`, and the text itself.
pub record Body : Type 0 where
  pub explicit : Option Text
  pub found_codes : List Text
  pub text : Text

unfoldable pub is_encrypted_content_verification_error : Text → Bool
is_encrypted_content_verification_error message =
    let s = to_lower message in
    contains_any s (
      codes "invalid_encrypted_content"
      ∷ codes "encrypted_content verify failed"
      ∷ codes "encrypted content verify failed"
      ∷ codes "encrypted content verification failed"
      ∷ [])
    || (contains s (codes "encrypted content")
        && contains_any s (
            codes "could not be verified"
            ∷ codes "couldn't be verified"
            ∷ codes "cannot be verified"
            ∷ []))

unfoldable pub is_overloaded_text : Text → Bool
is_overloaded_text message = contains (to_lower message) (codes "overloaded")

unfoldable pub is_temporary_rate_limit_text : Text → Bool
is_temporary_rate_limit_text message = contains_any (to_lower message) (
    codes "usage limit"
    ∷ codes "rate limit"
    ∷ codes "too many requests"
    ∷ codes "quota exceeded"
    ∷ codes "insufficient quota"
    ∷ codes "insufficient_quota"
    ∷ codes "billing hard limit"
    ∷ codes "billing_hard_limit_reached"
    ∷ codes "slow down"
    ∷ codes "slow_down"
    ∷ codes "try again later"
    ∷ codes "try again in"
    ∷ codes "retry after"
    ∷ [])

unfoldable pub is_deactivated_workspace_text : Text → Bool
is_deactivated_workspace_text message = contains (to_lower message) (codes "deactivated_workspace")

unfoldable pub is_web_socket_payment_required_text : Text → Bool
is_web_socket_payment_required_text message =
    contains (to_lower message) (codes "websocket 握手失败: payment required (http 402)")

-- `strings.ReplaceAll(s, "_", " ")`
unfoldable pub underscores_to_spaces : Text → Text
underscores_to_spaces s = map (λ c. if c == b'_' then b' ' else c) s

unfoldable pub is_model_unsupported_text : Text → Bool
is_model_unsupported_text message =
    let s = to_lower message in
    contains_any s (
      codes "model_not_found"
      ∷ codes "model_not_supported"
      ∷ codes "invalid_model"
      ∷ codes "unsupported_model"
      ∷ codes "no such model"
      ∷ [])
    || (contains s (codes "model")
        && contains_any s (
            codes "not supported"
            ∷ codes "unsupported"
            ∷ codes "does not support"
            ∷ codes "does not exist"
            ∷ codes "not found"
            ∷ codes "not available"
            ∷ codes "invalid model"
            ∷ []))

abbrev push_word : Text → List Text → List Text
push_word [] ws = ws
push_word (c ∷ w) ws = (c ∷ w) ∷ ws

unfoldable pub has_word : List Text → List Text → Bool
has_word words [] = false
has_word words (w ∷ ws) = is_one_of w words || has_word words ws

-- Whether a code point beyond ASCII is a letter or a digit of Unicode is a parameter.
module _ (is_letter : ℕ → Bool) where
  -- The words of a code: `strings.FieldsFunc` on what is no letter and no digit.
  abbrev is_alphanumeric : ℕ → Bool
  is_alphanumeric c =
      (leb 128 c && is_letter c)
      || (leb b'a' c && leb c b'z')
      || (leb b'A' c && leb c b'Z')
      || (leb b'0' c && leb c b'9')

  unfoldable pub words_from : Text → Text → List Text
  words_from w [] = push_word w []
  words_from w (c ∷ s) =
      let inside = words_from (w ++ c ∷ []) s in
      let outside = words_from [] s in if is_alphanumeric c then inside else push_word w outside

  unfoldable pub is_quota_exhaustion_code : Text → Bool
  unfolding words_from has_word
  is_quota_exhaustion_code code =
      let words = words_from [] (to_lower (trim_space code)) in
      has_word (codes "quota" ∷ codes "balance" ∷ codes "credit" ∷ codes "credits" ∷ []) words
      && has_word
          (codes "insufficient" ∷ codes "exhausted" ∷ codes "exceeded" ∷ codes "depleted" ∷ [])
          words

  unfoldable pub has_quota_exhaustion_code : List Text → Bool
  has_quota_exhaustion_code [] = false
  has_quota_exhaustion_code (c ∷ cs) = is_quota_exhaustion_code c || has_quota_exhaustion_code cs

unfoldable pub is_balance_exhaustion_text : Text → Bool
is_balance_exhaustion_text text =
    let s = to_lower text in
    contains_any s (
      codes "insufficient balance"
      ∷ codes "insufficient_balance"
      ∷ codes "insufficient credit"
      ∷ codes "insufficient_credit"
      ∷ codes "insufficient credits"
      ∷ codes "balance is exhausted"
      ∷ codes "balance has been exhausted"
      ∷ codes "balance exhausted"
      ∷ codes "balance is insufficient"
      ∷ codes "balance is too low"
      ∷ codes "balance too low"
      ∷ codes "balance exceeded"
      ∷ codes "balance depleted"
      ∷ codes "no balance remaining"
      ∷ codes "credit is exhausted"
      ∷ codes "credit has been exhausted"
      ∷ codes "credit exhausted"
      ∷ codes "credit is insufficient"
      ∷ codes "credit is too low"
      ∷ codes "credit exceeded"
      ∷ codes "credit depleted"
      ∷ codes "no credits remaining"
      ∷ codes "no credit remaining"
      ∷ [])
    || (contains_any s (codes "balance" ∷ codes "credit" ∷ [])
        && contains_any s
            (codes "recharge" ∷ codes "redeem" ∷ codes "top up" ∷ codes "add funds" ∷ []))

abbrev pub balance_exhaustion_scan_limit : ℕ
balance_exhaustion_scan_limit = 4096

-- A code point that the limit cuts is left out; the signals are ASCII.
unfoldable pub is_balance_exhaustion : Text → Text → Bool
is_balance_exhaustion message body =
    is_balance_exhaustion_text message
    || is_balance_exhaustion_text (take_bytes balance_exhaustion_scan_limit body)

abbrev pub is_hash_rejection : Option Text → Bool
is_hash_rejection none = false
is_hash_rejection (some code) = is_explicit_text_hash_rejection_code code

module _ (disabled : Text → Bool) where
  unfoldable pub is_disabled_account_text : Text → Bool
  is_disabled_account_text message =
      let s = underscores_to_spaces (to_lower message) in
      not (is_empty s)
      && (disabled s
          || contains_any s (
              codes "not an active member of the selected workspace"
              ∷ codes "personal access token owner is inactive"
              ∷ []))

  unfoldable pub classify_http_failure : ℕ → Text → OutcomeKind
  classify_http_failure status message =
      if status == 400 && is_encrypted_content_verification_error message
      then client_error
      else if leb 400 status && is_overloaded_text message
      then family_transient
      else if (status == 400 || status == 403 || status == 429)
          && is_temporary_rate_limit_text message
      then account_rate_limited
      else if status == 402
          && (is_deactivated_workspace_text message || is_web_socket_payment_required_text message)
      then account_dead
      else if (status == 400 || status == 403) && is_disabled_account_text message
      then account_dead
      else if status == 429
      then account_rate_limited
      else if status == 401
      then account_dead
      else if status == 403
      then account_unavailable
      else if leb 500 status
      then upstream_transient
      else if leb 400 status
      then client_error
      else success

module _ (is_letter : ℕ → Bool) (disabled : Text → Bool) where
  unfoldable pub classify_http_failure_response : ℕ → Body → Text → OutcomeKind
  classify_http_failure_response status body message =
      if leb 400 status && is_hash_rejection body.explicit
      then client_error
      else if (status == 402 || status == 403)
          && (has_quota_exhaustion_code is_letter body.found_codes
              || is_balance_exhaustion message body.text)
      then account_quota_exhausted
      else classify_http_failure disabled status message
