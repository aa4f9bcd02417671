-- ===== src/Safety/Store.antt =====
-- The methods of safety_request_cache.go that callers use, over the list operations of `Cache`.
-- A nil receiver is `none`.
use airgate_openai.Base.{
  ltb, ◌==◌, if◌then◌else◌, ◌>>=◌, length, take, Text, codes, Text-discrete, is_empty, trim_space,
  to_lower, ℕ, ◌+◌, ite, Bool, true, false, Option, none, some, List, [], ◌∷◌, ◌++◌, map,
}
use airgate_openai.Safety.Cache.{
  Entry, SafetyRequestCache, default_ttl, default_max_entries, max_cached_reason_runes, load, store,
  append_newest, move_to_newest, category_count, increment_category, decrement_category,
  purge_expired, make_room,
}

-- What a method leaves behind: the cache, and what it returns.
abbrev pub Returned : Type 0 → Type 0
Returned A = Option (Option SafetyRequestCache × A)

unfoldable pub normalize_cached_reason : Text → Text
normalize_cached_reason reason =
    let trimmed = trim_space reason in
    if is_empty trimmed
    then []
    else if ltb max_cached_reason_runes (length trimmed)
    then take max_cached_reason_runes trimmed ++ codes "..."
    else trimmed

unfoldable pub normalize_cache_category : Text → Text
normalize_cache_category category = to_lower (trim_space category)

unfoldable pub lookup_locked : ℕ → ℕ → SafetyRequestCache → Returned (Text × Bool)
unfolding load
lookup_locked hash now c = do
  c1 ← purge_expired now c
  some (some c1, elim (load hash c1) [ none ↦ ([], false) | some entry ↦ (entry.reason, true) ])

unfoldable pub lookup : Option SafetyRequestCache → ℕ → ℕ → Returned (Text × Bool)
lookup none hash now = some (none, ([], false))
lookup (some c) hash now = lookup_locked hash now c

unfoldable pub contains : Option SafetyRequestCache → ℕ → ℕ → Returned Bool
contains c hash now = lookup c hash now >>= λ r. some (r.0, r.1.1)

-- A limit that is not positive falls back to the next one.
abbrev pub or_default : ℕ → ℕ → ℕ
or_default n d = if n == 0 then d else n

unfoldable pub stats_with_capacity : Option SafetyRequestCache → ℕ → ℕ → Returned (ℕ × ℕ)
stats_with_capacity none now default_capacity =
    some (none, (0, or_default default_capacity default_max_entries))
stats_with_capacity (some c) now default_capacity = do
  c1 ← purge_expired now c
  some (
    some c1,
    (length c1.entries, or_default c.max_entries (or_default default_capacity default_max_entries)),
  )

unfoldable pub stats : Option SafetyRequestCache → ℕ → Returned (ℕ × ℕ)
stats c now = stats_with_capacity c now default_max_entries

unfoldable pub stats_with_category_counts :
    Option SafetyRequestCache → ℕ → ℕ → List Text → Returned (ℕ × ℕ × List ℕ)
stats_with_category_counts none now default_capacity categories =
    some (none, (0, or_default default_capacity default_max_entries, map (λ _. 0) categories))
stats_with_category_counts (some c) now default_capacity categories = do
  c1 ← purge_expired now c
  some (
    some c1,
    (
      length c1.entries,
      or_default c.max_entries (or_default default_capacity default_max_entries),
      map (λ category. category_count (normalize_cache_category category) c1.categories) categories,
    ),
  )

-- `if category != "" && entry.category != category { … }`
unfoldable pub recategorize : ℕ → Entry → Text → SafetyRequestCache → SafetyRequestCache
unfolding store
recategorize hash entry category c =
    if is_empty category
    then c
    else ite (Text-discrete entry.category category) c (
        increment_category category
          (store hash (record entry { category = category }) (decrement_category entry.category c)))

-- The loop's body for a hash that is there: refreshed, and the newest.
unfoldable pub refresh :
    ℕ → Text → Text → ℕ → Entry → SafetyRequestCache → Option SafetyRequestCache
unfolding store recategorize
refresh expires_at reason category hash entry c =
    let entry1 = record entry {
      expires_at = expires_at;
      reason = if is_empty reason then entry.reason else reason;
    } in
    move_to_newest hash (recategorize hash entry1 category (store hash entry1 c))

-- The loop's body for a hash that is not there.
unfoldable pub insert : ℕ → Text → Text → ℕ → SafetyRequestCache → Option SafetyRequestCache
unfolding store
insert expires_at reason category hash c = append_newest hash (
    increment_category category (
      store hash
        (record {
          expires_at = expires_at;
          reason = reason;
          category = category;
          hash = hash;
          older = none;
          newer = none;
        })
        c))

unfoldable pub add_hash : ℕ → ℕ → Text → Text → ℕ → SafetyRequestCache → Option SafetyRequestCache
unfolding load
add_hash limit expires_at reason category hash c = elim (load hash c) [
  | some entry ↦ refresh expires_at reason category hash entry c
  | none ↦ make_room limit c >>= λ c1. insert expires_at reason category hash c1
]

unfoldable pub add_loop :
    ℕ → ℕ → Text → Text → List ℕ → SafetyRequestCache → Option SafetyRequestCache
add_loop limit expires_at reason category [] c = some c
add_loop limit expires_at reason category (hash ∷ hashes) c =
    add_hash limit expires_at reason category hash c >>= λ c1.
    add_loop limit expires_at reason category hashes c1

-- `if c.newest != nil && expiresAt.Before(c.newest.expiresAt) { … }`
unfoldable pub clamp_expiry : Option ℕ → ℕ → SafetyRequestCache → Option ℕ
unfolding load
clamp_expiry none expires_at c = some expires_at
clamp_expiry (some p) expires_at c = do
  newest ← load p c
  some (if ltb expires_at newest.expires_at then newest.expires_at else expires_at)

unfoldable pub add_locked :
    List ℕ → ℕ → Text → Text → ℕ → ℕ → SafetyRequestCache → Option SafetyRequestCache
add_locked hashes now reason category default_ttl' default_max_entries' c =
    let ttl = or_default c.ttl (or_default default_ttl' default_ttl) in
    let limit = or_default c.max_entries (or_default default_max_entries' default_max_entries) in
    do
      c1 ← purge_expired now c
      expires_at ← clamp_expiry c1.newest (now + ttl) c1
      add_loop limit expires_at (normalize_cached_reason reason) (normalize_cache_category category)
          hashes c1

-- `addHashesWithReasonCategoryAndLimits`
unfoldable pub add_hashes :
    Option SafetyRequestCache
    → List ℕ
    → ℕ
    → Text
    → Text
    → ℕ
    → ℕ
    → Option (Option SafetyRequestCache)
add_hashes none hashes now reason category default_ttl' default_max_entries' = some none
add_hashes (some c) [] now reason category default_ttl' default_max_entries' = some (some c)
add_hashes (some c) (hash ∷ hashes) now reason category default_ttl' default_max_entries' =
    add_locked (hash ∷ hashes) now reason category default_ttl' default_max_entries' c >>= λ c1.
    some (some c1)

unfoldable pub add_hashes_with_limits :
    Option SafetyRequestCache → List ℕ → ℕ → ℕ → ℕ → Option (Option SafetyRequestCache)
add_hashes_with_limits c hashes now default_ttl' default_max_entries' =
    add_hashes c hashes now [] [] default_ttl' default_max_entries'

unfoldable pub add_with_reason :
    Option SafetyRequestCache → ℕ → ℕ → Text → Option (Option SafetyRequestCache)
add_with_reason c hash now reason =
    add_hashes c (hash ∷ []) now reason [] default_ttl default_max_entries

unfoldable pub add_with_category :
    Option SafetyRequestCache → ℕ → ℕ → Text → Option (Option SafetyRequestCache)
add_with_category c hash now category =
    add_hashes c (hash ∷ []) now [] category default_ttl default_max_entries

unfoldable pub add : Option SafetyRequestCache → ℕ → ℕ → Option (Option SafetyRequestCache)
add c hash now = add_with_reason c hash now []
