-- ===== src/Cooldown/Tracker.antt =====
-- oauth_model_cooldown.go: the tracker of rejections and `apply`. `DispatchPlan.UpstreamModel()` and
-- the outcome's types are of the SDK: the request carries what the call returns. Durations are in
-- nanoseconds.
use airgate_openai.Base.{
  ltb, leb, ◌==◌, if◌then◌else◌, get_elem?, Text, codes, Text-discrete, trim_space, to_lower,
  contains, is_one_of, join_space, is_blank, GoMap, get, put, delete, ℕ, ◌+◌, ◌*◌, Bool, true,
  false, not, ◌&&◌, ◌||◌, Option, none, some, List, [], ◌∷◌, ℕ_discrete,
}
use airgate_openai.Errors.Classify.{OutcomeKind, success, client_error, account_rate_limited}
use mathlib.Core.HLevel.{×_discrete}

-- A missing key of a map of texts gives the empty text.
abbrev pub text_at : Text → GoMap Text Text → Text
text_at k m = elim (get Text-discrete k m) [ none ↦ [] | some v ↦ v ]

-- Go's `values...` scanned for the first that is not blank.
unfoldable pub first_non_empty_string : List Text → Text
first_non_empty_string [] = []
first_non_empty_string (v ∷ vs) = if not (is_blank v) then v else first_non_empty_string vs

-- `strings.ReplaceAll(mode, "_", "")`
unfoldable pub without_underscores : Text → Text
without_underscores [] = []
without_underscores (c ∷ cs) =
    if c == 95 then without_underscores cs else c ∷ without_underscores cs

unfoldable pub normalize_agent_identity_mode : Text → Text
normalize_agent_identity_mode value = without_underscores (to_lower (trim_space value))

abbrev pub Credentials : Type 0
Credentials = GoMap Text Text

-- `v := credentials[name]`, and `credentials[other]` where that is blank.
abbrev pub either_spelling : Text → Text → Credentials → Text
either_spelling name other credentials =
    if is_blank (text_at name credentials)
    then text_at other credentials
    else text_at name credentials

abbrev pub auth_mode_agent_identity : Text
auth_mode_agent_identity = codes "agentIdentity"

unfoldable pub is_agent_identity_credentials : Credentials → Bool
is_agent_identity_credentials credentials =
    let mode = either_spelling (codes "auth_mode") (codes "authMode") credentials in
    if is_one_of (normalize_agent_identity_mode mode)
      (normalize_agent_identity_mode auth_mode_agent_identity ∷ [])
    then true
    else not
        (is_blank (either_spelling (codes "agent_runtime_id") (codes "agentRuntimeId") credentials))
      && not (
          is_blank
            (either_spelling (codes "agent_private_key") (codes "agentPrivateKey") credentials))

unfoldable pub is_oauth_credentials : Credentials → Bool
is_oauth_credentials credentials =
    not (is_blank (text_at (codes "access_token") credentials))
    || is_agent_identity_credentials credentials

unfoldable pub is_entitlement_unavailable_text : ℕ → List Text → Bool
is_entitlement_unavailable_text status parts =
    let combined = to_lower (join_space parts) in
    if not (contains combined (codes "model"))
    then false
    else contains combined (codes "not supported when using codex with a chatgpt account")
      || (status == 400
          && contains combined (codes "does not exist or you do not have access to it"))

abbrev pub minute : ℕ
minute = 60_000_000_000

abbrev pub backoff_schedule : List ℕ
backoff_schedule = minute ∷ 3 * minute ∷ 10 * minute ∷ 30 * minute ∷ 120 * minute ∷ []

-- The account's number and the model.
abbrev pub Key : Type 0
Key = ℕ × Text

abbrev pub Key-discrete : Discrete Key
Key-discrete = ×_discrete ℕ_discrete Text-discrete

abbrev pub Tracker : Type 0
Tracker = GoMap Key ℕ

-- `t.failures[key]`, 0 where it is missing.
unfoldable pub failures_of : Key → Tracker → ℕ
failures_of key t = elim (get Key-discrete key t) [ none ↦ 0 | some n ↦ n ]

-- `oauthModelEntitlementBackoffSchedule[i]`, whose index is in range where the code reads it.
unfoldable pub schedule_at : ℕ → ℕ
schedule_at i = elim (get_elem? backoff_schedule i) [ none ↦ 0 | some d ↦ d ]

unfoldable pub next : Key → Tracker → Tracker × ℕ
unfolding failures_of
next key t =
    let step = failures_of key t in
    (
      (if ltb step 5 then put Key-discrete key (step + 1) t else t),
      schedule_at (if leb 5 step then 4 else step),
    )

unfoldable pub reset : Key → Tracker → Tracker
reset key t = delete Key-discrete key t

pub record Account : Type 0 where
  pub id : ℕ
  pub credentials : Credentials

pub record Request : Type 0 where
  pub account : Option Account
  pub scheduling_model : Text
  pub upstream_model : Text
  pub model : Text

pub data FailoverScope : Type 0 where
  scope_none scope_other : FailoverScope

pub record Outcome : Type 0 where
  pub kind : OutcomeKind
  pub status : ℕ
  pub reason : Text
  pub body : Text
  pub failover_scope : FailoverScope
  pub retry_after : ℕ

-- No key for a request that is nil or has no account.
unfoldable pub tracker_key : Option Request → Option (Key × Account)
unfolding first_non_empty_string
tracker_key none = none
tracker_key (some r) = elim r.account [
  | none ↦ none
  | some a ↦ some (
    (
      a.id,
      to_lower (
          trim_space
            (first_non_empty_string (r.scheduling_model ∷ r.upstream_model ∷ r.model ∷ []))),
    ),
    a,
  )
]

abbrev pub is_tracked : Credentials → Bool
is_tracked c = not (
    not (is_oauth_credentials c)
    || is_agent_identity_credentials c
    || not (is_blank (text_at (codes "api_key") c)))

abbrev pub is_entitlement_unavailable : Outcome → Bool
is_entitlement_unavailable o = is_entitlement_unavailable_text o.status (o.reason ∷ o.body ∷ [])

abbrev pub cooled : Outcome → ℕ → Outcome
cooled o delay = record o {
  kind = account_rate_limited;
  failover_scope = scope_none;
  retry_after = delay;
}

-- `apply` on a known key, after the guards on the credentials.
unfoldable pub apply_keyed : Key → Outcome → Tracker → Tracker × Outcome × Bool
unfolding next reset
apply_keyed key o t = elim o.kind [
  | success ↦ (reset key t, o, false)
  | client_error ↦
      (if is_entitlement_unavailable o
        then (let n = next key t in (n.0, cooled o n.1, true))
        else (t, o, false))
  | _ ↦ (t, o, false)
]

abbrev pub apply_guarded : Outcome → Tracker → Option (Key × Account) → Tracker × Outcome × Bool
apply_guarded o t none = (t, o, false)
apply_guarded o t (some (key, account)) =
    if is_tracked account.credentials then apply_keyed key o t else (t, o, false)

unfoldable pub apply : Option Request → Outcome → Tracker → Tracker × Outcome × Bool
unfolding tracker_key apply_keyed is_oauth_credentials is_agent_identity_credentials
apply request o t = apply_guarded o t (tracker_key request)
