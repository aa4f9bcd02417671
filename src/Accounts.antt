-- ===== src/Accounts.antt =====
-- The theorems at concrete inputs: cooled accounts, failures of accounts and waiting snapshots.
use airgate_openai.Base.{
  Text, codes, Text-discrete, trim_space, to_lower, contains, is_one_of, join_space, get, ℕ, ◌≤◌,
  ◌<◌, min, ◌≡◌, refl, ◌↔◌, ◌⊎◌, if_pos, Bool, true, false, Option, some, [], ◌∷◌, arith,
  ℕ_discrete,
}
use airgate_openai.Errors.Classify.{
  success, client_error, account_quota_exhausted, Body, is_overloaded_text,
  is_temporary_rate_limit_text, is_disabled_account_text, is_deactivated_workspace_text,
  is_web_socket_payment_required_text, is_hash_rejection, has_quota_exhaustion_code,
  is_balance_exhaustion, classify_http_failure, classify_http_failure_response,
}
use airgate_openai.Errors.Codes.{cybersecurity_risk_error_code}
use airgate_openai.Errors.Laws.{
  classify_http_failure-success, classify_http_failure-account_dead,
  classify_http_failure_response-quota,
}
use airgate_openai.Cooldown.Tracker.{
  Key, Key-discrete, backoff_schedule, Account, Request, Outcome, scope_none, scope_other,
  tracker_key, failures_of, schedule_at, cooled, apply, minute,
}
use airgate_openai.Cooldown.Streak.{
  after, rejected, ignored, verdict, streak, after_lem, apply_after_lem,
}
use airgate_openai.Pending.Queue.{PendingState, save_pending, store_newer_pending}
use airgate_openai.Pending.Bounds.{Bounded, total, save_pending-Bounded, store_newer_pending-newest}

-- An account of OAuth that is told that it may not use a model.
abbrev account : Account
account = record { id = 1; credentials = (codes "access_token", codes "t") ∷ [] }

abbrev request : Option Request
request = some (record {
  account = some account;
  scheduling_model = codes "m";
  upstream_model = [];
  model = [];
})

abbrev refusal : Outcome
refusal = record {
  kind = client_error;
  status = 400;
  reason = codes "the model does not exist or you do not have access to it";
  body = [];
  failover_scope = scope_other;
  retry_after = 0;
}

after_lem_example :
    failures_of (1, codes "m") (after ((request, refusal) ∷ []))
    ≡ min (streak (1, codes "m") ((request, refusal) ∷ [])) 5
after_lem_example = after_lem (1, codes "m") ((request, refusal) ∷ [])

apply_after_lem_example :
    ((apply request refusal (after ((request, refusal) ∷ []))).1
      ≡ cooled refusal (schedule_at (min (streak (1, codes "m") ((request, refusal) ∷ [])) 4)))
    × ((apply request refusal (after ((request, refusal) ∷ []))).2 ≡ true)
unfolding tracker_key to_lower trim_space verdict
    airgate_openai.Cooldown.Tracker.is_oauth_credentials get Text-discrete
    airgate_openai.Cooldown.Tracker.is_agent_identity_credentials is_one_of
    airgate_openai.Cooldown.Tracker.normalize_agent_identity_mode
    airgate_openai.Cooldown.Tracker.without_underscores
    airgate_openai.Cooldown.Tracker.is_entitlement_unavailable_text contains join_space
apply_after_lem_example =
    apply_after_lem request refusal ((request, refusal) ∷ []) (1, codes "m") account refl
      (if_pos (Key-discrete (1, codes "m") (1, codes "m")) refl rejected ignored)

-- No message tells of a disabled account, in the examples of the errors.
abbrev never : Text → Bool
never message = false

abbrev no_letter : ℕ → Bool
no_letter c = false

abbrev body : Body
body = record {
  explicit = some cybersecurity_risk_error_code;
  found_codes = codes "insufficient_quota" ∷ [];
  text = [];
}

classify_http_failure-success_example : (classify_http_failure never 302 [] ≡ success) ↔ (302 < 400)
classify_http_failure-success_example = classify_http_failure-success never 302 []

abbrev unauthorized : ℕ
unauthorized = 401

abbrev payment_required : ℕ
payment_required = 402

classify_http_failure-account_dead_example :
    (is_overloaded_text [] ≡ false)
    × ((unauthorized ≡ 401)
        ⊎ ((unauthorized ≡ 402)
            × ((is_deactivated_workspace_text [] ≡ true)
                ⊎ (is_web_socket_payment_required_text [] ≡ true)))
        ⊎ (((unauthorized ≡ 400) ⊎ (unauthorized ≡ 403))
            × (is_disabled_account_text never [] ≡ true)
            × (is_temporary_rate_limit_text [] ≡ false)))
unfolding classify_http_failure is_overloaded_text contains to_lower
classify_http_failure-account_dead_example = classify_http_failure-account_dead never 401 [] refl

classify_http_failure_response-quota_example :
    (classify_http_failure_response no_letter never 402 body [] ≡ account_quota_exhausted) ↔ (
      ((payment_required ≡ 402) ⊎ (payment_required ≡ 403))
      × (is_hash_rejection body.explicit ≡ false)
      × ((has_quota_exhaustion_code no_letter body.found_codes ≡ true)
          ⊎ (is_balance_exhaustion [] body.text ≡ true)))
classify_http_failure_response-quota_example =
    classify_http_failure_response-quota never 402 no_letter body []

abbrev waiting : PendingState ℕ
waiting = record {
  closing = false;
  pending_sizes = (1, 100) ∷ [];
  pending_bytes = 100;
  dropped = 0;
}

waiting-Bounded : Bounded ℕ_discrete waiting
unfolding get ℕ_discrete total
waiting-Bounded = record {
  distinct = (refl, tt);
  bytes = refl;
  within_bytes = omega arith;
  within_count = omega arith;
}

save_pending-Bounded_example : Bounded ℕ_discrete (save_pending ℕ_discrete 1 250 true waiting).0
save_pending-Bounded_example = save_pending-Bounded ℕ_discrete 1 250 true waiting waiting-Bounded

store_newer_pending-newest_example :
    (v : ℕ) × (get ℕ_discrete 1 (store_newer_pending ℕ_discrete (λ t. t) 1 7 ((1, 9) ∷ [])).0
      ≡ some v)
    × (7 ≤ v)
    × (9 ≤ v)
unfolding get ℕ_discrete
store_newer_pending-newest_example =
    store_newer_pending-newest ℕ_discrete (λ t. t) 1 7 9 ((1, 9) ∷ []) refl
