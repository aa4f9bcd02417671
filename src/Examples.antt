-- ===== src/Examples.antt =====
-- The theorems at concrete inputs: a small cache, sessions, sizes and requests.
use airgate_openai.Base.{
  ◌&&◌, not, ℕ, length, any, Text, codes, trim_space, to_lower, ◌≡◌, refl, true, false, some, List,
  [], ◌∷◌, map, arith,
}
use airgate_openai.Safety.Cache.{SafetyRequestCache, empty_cache}
use airgate_openai.Safety.Store.{
  add_hashes, lookup, add_with_reason, stats_with_category_counts, normalize_cached_reason,
  normalize_cache_category,
}
use airgate_openai.Safety.Segment.{Item}
use airgate_openai.Safety.Spec.{drop_expired, find, count_in, Represents}
use airgate_openai.Safety.Order.{if_alive}
use airgate_openai.Safety.Laws.{
  Holds, effective_limit, added, told, add_hashes_lem, lookup_lem, lookup-add_with_reason,
  stats_with_category_counts_lem, empty_cache-Holds,
}
use airgate_openai.Encrypted.Session.{Session, new_session, inspect_all, cache_violation, removals}
use airgate_openai.Encrypted.Laws.{inspected, recorded, removals_lem}
use airgate_openai.Encrypted.Violation.{
  is_recorded, is_null, without, after_violation, cache_violation_lem,
}
use airgate_openai.Errors.Codes.{cybersecurity_risk_error_code}

-- A cache of two rejected hashes, 7 and 8, recorded at the time 100 with the time to live 10.
abbrev reason : Text
reason = codes "not allowed"

abbrev category : Text
category = codes "text"

abbrev stocked :
    (c' : SafetyRequestCache) × (add_hashes
        (some (empty_cache 10 5))
        (7 ∷ 8 ∷ [])
        100
        reason
        category
        0
        0
      ≡ some (some c'))
    × Holds 10 5 5 c' (added 10 5 reason category (7 ∷ 8 ∷ []) 100 0 [])
stocked =
    add_hashes_lem 10 5 (empty_cache 10 5) [] 7 (8 ∷ []) 100 reason category 0 0
      (empty_cache-Holds 10 5 5)

abbrev items : List Item
items = added 10 5 reason category (7 ∷ 8 ∷ []) 100 0 []

add_hashes_lem_example :
    (c' : SafetyRequestCache) × (add_hashes (some stocked.0) (7 ∷ []) 105 reason category 0 0
      ≡ some (some c'))
    × Holds 10 5 5 c' (added 10 5 reason category (7 ∷ []) 105 0 items)
add_hashes_lem_example = add_hashes_lem 10 5 stocked.0 items 7 [] 105 reason category 0 0 stocked.2

lookup_lem_example :
    (c' : SafetyRequestCache) × (lookup (some stocked.0) 8 109
      ≡ some (some c', told (if_alive 109 (find 8 items))))
    × Holds 10 5 5 c' (drop_expired 109 items)
lookup_lem_example = lookup_lem 10 5 5 stocked.0 items 8 109 stocked.2

lookup-add_with_reason_example :
    (c' : SafetyRequestCache) × (c'' : SafetyRequestCache) × (add_with_reason
        (some stocked.0)
        9
        105
        reason
      ≡ some (some c'))
    × (lookup (some c') 9 112 ≡ some (some c'', (normalize_cached_reason reason, true)))
unfolding normalize_cached_reason trim_space airgate_openai.Safety.Order.clamped drop_expired
    airgate_openai.Safety.Spec.spec_add_all airgate_openai.Safety.Spec.spec_add find
    airgate_openai.Safety.Spec.drop_oldest
lookup-add_with_reason_example =
    lookup-add_with_reason 10 5 stocked.0 items 9 105 112 reason stocked.2 refl (omega arith)

stats_with_category_counts_lem_example :
    let live = drop_expired 105 items in
    (c' : SafetyRequestCache) × (stats_with_category_counts (some stocked.0) 105 9 (category ∷ [])
      ≡ some (
        some c',
        (
          length live,
          effective_limit 5 9,
          map (λ g. count_in (normalize_cache_category g) live) (category ∷ []),
        ),
      ))
    × Represents 10 5 c' live
unfolding normalize_cache_category to_lower trim_space
stats_with_category_counts_lem_example =
    stats_with_category_counts_lem 10 5 5 stocked.0 items 105 9 (category ∷ []) stocked.2 (refl, tt)

-- The hash of a ciphertext by its length: of the lengths 7 and 9 the cache holds the first.
abbrev by_length : ℕ → Text → ℕ
by_length scope raw = length raw

abbrev ciphertexts : List Text
ciphertexts = codes "1234567" ∷ codes "123456789" ∷ []

cache_violation_lem_example :
    let fresh = without (recorded items 105) (map (by_length 1) ciphertexts) in
    let l1 = inspected ciphertexts 105 items in
    (c1 : SafetyRequestCache) × (s : Session) × (c2 : SafetyRequestCache) × (inspect_all by_length
        (some stocked.0)
        (new_session 105 1)
        ciphertexts
      ≡ some (some c1, s))
    × Holds 10 5 5 c1 l1
    × (cache_violation (some c1) s cybersecurity_risk_error_code 106
        ≡ some (some c2, is_recorded cybersecurity_risk_error_code && not (is_null fresh)))
    × Holds 10 5 5 c2
        (after_violation 10 5 (is_recorded cybersecurity_risk_error_code) fresh 106 l1)
cache_violation_lem_example =
    cache_violation_lem by_length 10 5 stocked.0 items 105 1 ciphertexts
      cybersecurity_risk_error_code 106 stocked.2

-- A session that forwarded one ciphertext, of the hash 3, and removed one, of the hash 4.
abbrev session : Session
session = record {
  checked_at = 100;
  scope = 1;
  candidates = 3 ∷ 4 ∷ [];
  matches = false ∷ true ∷ [];
  removal_index = 0;
  sanitized = false;
}

removals_lem_example :
    ((removals 2 session).1 ≡ session.matches)
    × ((removals 2 session).0.sanitized ≡ any (λ b. b) session.matches)
removals_lem_example = removals_lem session refl refl
