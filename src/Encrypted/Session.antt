-- ===== src/Encrypted/Session.antt =====
-- backend/internal/gateway/runtime_encrypted_content_cache.go: a request's ciphertexts are hashed and
-- looked up once; those that a rejection recorded are removed from the request.
-- The session's cache is shared, so it is passed beside the session; the hash of a scope and a
-- ciphertext (xxh3, a third-party package) is a parameter.
use airgate_openai.Base.{
  if◌then◌else◌, ◌>>=◌, get_elem?, Text, is_one_of, ℕ, zero, suc, ◌+◌, ◌*◌, Bool, true, false,
  Option, none, some, List, [], ◌∷◌, ◌++◌,
}
use airgate_openai.Errors.Codes.{
  cybersecurity_risk_error_code, prompt_usage_policy_error_code,
  normalize_explicit_upstream_error_code,
}
use airgate_openai.Safety.Cache.{SafetyRequestCache}
use airgate_openai.Safety.Store.{Returned, contains as contains_hash, add_hashes_with_limits}

abbrev pub encrypted_content_cache_ttl : ℕ
encrypted_content_cache_ttl = 24 * 3600 * 1_000_000_000

abbrev pub encrypted_content_cache_max_entries : ℕ
encrypted_content_cache_max_entries = 100_000

pub record Session : Type 0 where
  pub checked_at : ℕ
  pub scope : ℕ
  pub candidates : List ℕ
  pub matches : List Bool
  pub removal_index : ℕ
  pub sanitized : Bool

unfoldable pub new_session : ℕ → ℕ → Session
new_session checked_at scope = record {
  checked_at = checked_at;
  scope = scope;
  candidates = [];
  matches = [];
  removal_index = 0;
  sanitized = false;
}

unfoldable pub begin_rewrite : Session → Session
begin_rewrite s = record s { candidates = []; matches = []; removal_index = 0; sanitized = false }

-- The hashes that were forwarded: those of the candidates that did not match.
unfoldable pub forwarded : List ℕ → List Bool → List ℕ
forwarded [] matches = []
forwarded (h ∷ hs) [] = []
forwarded (h ∷ hs) (true ∷ ms) = forwarded hs ms
forwarded (h ∷ hs) (false ∷ ms) = h ∷ forwarded hs ms

abbrev pub is_true : Option Bool → Bool
is_true none = false
is_true (some b) = b

unfoldable pub should_remove : Session → Session × Bool
should_remove s =
    let hit = is_true (get_elem? s.matches s.removal_index) in
    let t = record s { removal_index = s.removal_index + 1 } in
    if hit then (record t { sanitized = true }, true) else (t, false)

-- The removals of a rewrite that asks `n` times.
unfoldable pub removals : ℕ → Session → Session × List Bool
unfolding should_remove
removals zero s = (s, [])
removals (suc n) s = let (s1, b) = should_remove s in let (s2, bs) = removals n s1 in (s2, b ∷ bs)

unfoldable pub is_cached_rejection : Text → Bool
is_cached_rejection code =
    is_one_of (normalize_explicit_upstream_error_code code)
      (prompt_usage_policy_error_code ∷ cybersecurity_risk_error_code ∷ [])

-- `CacheViolation` at the time `now`.
unfoldable pub cache_violation :
    Option SafetyRequestCache → Session → Text → ℕ → Option (Option SafetyRequestCache × Bool)
unfolding is_cached_rejection
cache_violation none s code now = some (none, false)
cache_violation (some c) s code now = elim (forwarded s.candidates s.matches) [
  | [] ↦ some (some c, false)
  | h ∷ hs ↦
      if is_cached_rejection code
      then (add_hashes_with_limits (some c) (h ∷ hs) now encrypted_content_cache_ttl
            encrypted_content_cache_max_entries
          >>= λ c1. some (c1, true))
      else some (some c, false)
]

module _ (hash : ℕ → Text → ℕ) where
  unfoldable pub inspect : Option SafetyRequestCache → Session → Text → Returned Session
  inspect c s raw =
      let h = hash s.scope raw in
      contains_hash c h s.checked_at >>= λ r.
      some (r.0, record s { candidates = s.candidates ++ h ∷ []; matches = s.matches ++ r.1 ∷ [] })

  -- `Inspect` of every ciphertext, in the order of the request.
  unfoldable pub inspect_all : Option SafetyRequestCache → Session → List Text → Returned Session
  inspect_all c s [] = some (c, s)
  inspect_all c s (raw ∷ raws) = inspect c s raw >>= λ r. inspect_all r.0 r.1 raws
