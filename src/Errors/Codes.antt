-- ===== src/Errors/Codes.antt =====
-- backend/internal/gateway/explicit_upstream_error.go: the codes of rejections, once they are read
-- from the JSON body (a third-party reader does that).
use airgate_openai.Base.{
  Text, codes, Text-discrete, trim_space, to_lower, is_one_of, ite, Bool, [], ◌∷◌,
}

abbrev pub cybersecurity_risk_error_code : Text
cybersecurity_risk_error_code = codes "cybersecurity_risk"

abbrev pub prompt_usage_policy_error_code : Text
prompt_usage_policy_error_code = codes "invalid_prompt"

abbrev pub safety_rejection_code : Text
safety_rejection_code = codes "safety_rejected"

unfoldable pub normalize_explicit_upstream_error_code : Text → Text
normalize_explicit_upstream_error_code code =
    let c = to_lower (trim_space code) in
    ite (Text-discrete c (codes "cyber_policy")) cybersecurity_risk_error_code c

unfoldable pub is_explicit_safety_rejected_code : Text → Bool
is_explicit_safety_rejected_code code = is_one_of (normalize_explicit_upstream_error_code code) (
    cybersecurity_risk_error_code
    ∷ prompt_usage_policy_error_code
    ∷ safety_rejection_code
    ∷ codes "content_policy"
    ∷ codes "content_policy_violation"
    ∷ codes "policy_violation"
    ∷ codes "moderation_blocked"
    ∷ [])

unfoldable pub is_explicit_text_hash_rejection_code : Text → Bool
is_explicit_text_hash_rejection_code code =
    is_one_of (normalize_explicit_upstream_error_code code) (
      cybersecurity_risk_error_code
      ∷ prompt_usage_policy_error_code
      ∷ codes "invalid_encrypted_content"
      ∷ [])
