-- ===== src/Safety/Cache.antt =====
-- backend/internal/gateway/safety_request_cache.go: a map from hashes to entries that are also
-- the nodes of a doubly linked list, oldest refresh first, with a count for each category.
-- There is one entry for each hash, so a pointer to an entry is its hash. A dereference of an
-- entry that is not there, like a loop that does not end, is `none`. A time is a number of
-- nanoseconds; a duration or a limit that is not positive is 0.
use airgate_openai.Base.{
  ltb, leb, ◌==◌, if◌then◌else◌, ◌>>=◌, length, Text, Text-discrete, is_empty, GoMap, get, put,
  delete, ℕ, zero, suc, ◌+◌, ◌-◌, ◌*◌, Bool, true, false, Option, none, some, [], ℕ_discrete,
}

pub record Entry : Type 0 where
  pub expires_at : ℕ
  pub reason : Text
  pub category : Text
  pub hash : ℕ
  pub older : Option ℕ
  pub newer : Option ℕ

pub record SafetyRequestCache : Type 0 where
  pub entries : GoMap ℕ Entry
  pub categories : GoMap Text ℕ
  pub oldest : Option ℕ
  pub newest : Option ℕ
  pub ttl : ℕ
  pub max_entries : ℕ

abbrev pub default_ttl : ℕ
default_ttl = 24 * 3600 * 1_000_000_000

abbrev pub default_max_entries : ℕ
default_max_entries = 8192

abbrev pub max_cached_reason_runes : ℕ
max_cached_reason_runes = 2048

-- `&SafetyRequestCache{ttl, maxEntries}`
unfoldable pub empty_cache : ℕ → ℕ → SafetyRequestCache
empty_cache ttl max_entries = record {
  entries = [];
  categories = [];
  oldest = none;
  newest = none;
  ttl = ttl;
  max_entries = max_entries;
}

-- To read an entry through its pointer, and to write it back.
unfoldable pub load : ℕ → SafetyRequestCache → Option Entry
load p c = get ℕ_discrete p c.entries

unfoldable pub store : ℕ → Entry → SafetyRequestCache → SafetyRequestCache
store p e c = record c { entries = put ℕ_discrete p e c.entries }

-- `if entry.older != nil { entry.older.newer = newer } else { c.oldest = newer }`
unfoldable pub unlink_older : Option ℕ → Option ℕ → SafetyRequestCache → Option SafetyRequestCache
unfolding load store
unlink_older none newer c = some (record c { oldest = newer })
unlink_older (some p) newer c = do e ← load p c; some (store p (record e { newer = newer }) c)

-- `if entry.newer != nil { entry.newer.older = older } else { c.newest = older }`
unfoldable pub unlink_newer : Option ℕ → Option ℕ → SafetyRequestCache → Option SafetyRequestCache
unfolding load store
unlink_newer none older c = some (record c { newest = older })
unlink_newer (some p) older c = do e ← load p c; some (store p (record e { older = older }) c)

unfoldable pub detach : ℕ → SafetyRequestCache → Option SafetyRequestCache
unfolding load store
detach p c = do
  entry ← load p c
  c1 ← unlink_older entry.older entry.newer c
  entry1 ← load p c1
  c2 ← unlink_newer entry1.newer entry1.older c1
  entry2 ← load p c2
  some (store p (record entry2 { older = none; newer = none }) c2)

-- `if c.newest != nil { c.newest.newer = entry } else { c.oldest = entry }`
unfoldable pub link_newest : Option ℕ → ℕ → SafetyRequestCache → Option SafetyRequestCache
unfolding load store
link_newest none p c = some (record c { oldest = some p })
link_newest (some n) p c = do e ← load n c; some (store n (record e { newer = some p }) c)

unfoldable pub append_newest : ℕ → SafetyRequestCache → Option SafetyRequestCache
unfolding load store
append_newest p c = do
  entry ← load p c
  let c1 = store p (record entry { older = c.newest; newer = none }) c
  c2 ← link_newest c1.newest p c1
  some (record c2 { newest = some p })

abbrev pub same_pointer : Option ℕ → ℕ → Bool
same_pointer none p = false
same_pointer (some q) p = q == p

unfoldable pub move_to_newest : ℕ → SafetyRequestCache → Option SafetyRequestCache
move_to_newest p c =
    if same_pointer c.newest p then some c else (detach p c >>= λ c1. append_newest p c1)

-- `categories[category]`, which is 0 where there is none.
abbrev pub count_or_zero : Option ℕ → ℕ
count_or_zero none = 0
count_or_zero (some n) = n

unfoldable pub category_count : Text → GoMap Text ℕ → ℕ
category_count category m = count_or_zero (get Text-discrete category m)

unfoldable pub increment_category : Text → SafetyRequestCache → SafetyRequestCache
increment_category category c = if is_empty category then c else record c {
  categories = put Text-discrete category (category_count category c.categories + 1) c.categories;
}

unfoldable pub decrement_category : Text → SafetyRequestCache → SafetyRequestCache
decrement_category category c =
    let count = category_count category c.categories in
    if is_empty category
    then c
    else if ltb 1 count
    then record c { categories = put Text-discrete category (count - 1) c.categories }
    else record c { categories = delete Text-discrete category c.categories }

-- The body of `evictOldestLocked` for an oldest entry that is there.
unfoldable pub evict : ℕ → SafetyRequestCache → Option SafetyRequestCache
unfolding load
evict p c = do
  c1 ← detach p c
  entry ← load p c1
  some (
      decrement_category entry.category
        (record c1 { entries = delete ℕ_discrete entry.hash c1.entries }))

unfoldable pub evict_oldest : SafetyRequestCache → Option SafetyRequestCache
evict_oldest c = elim c.oldest [ none ↦ some c | some p ↦ evict p c ]

-- The loop of `purgeExpiredLocked`, with fuel.
unfoldable pub purge_loop : ℕ → ℕ → SafetyRequestCache → Option SafetyRequestCache
unfolding load
purge_loop zero now c = none
purge_loop (suc fuel) now c = elim c.oldest [
  | none ↦ some c
  | some p ↦ load p c >>= λ entry. elim (ltb now entry.expires_at) [
    | true ↦ some c
    | false ↦ evict_oldest c >>= λ c1. purge_loop fuel now c1
  ]
]

-- Every round removes an entry, so the fuel is enough.
unfoldable pub purge_expired : ℕ → SafetyRequestCache → Option SafetyRequestCache
purge_expired now c = purge_loop (length c.entries + 1) now c

-- `for len(c.entries) >= maxEntries { c.evictOldestLocked() }`
unfoldable pub make_room_loop : ℕ → ℕ → SafetyRequestCache → Option SafetyRequestCache
make_room_loop zero limit c = none
make_room_loop (suc fuel) limit c = elim (leb limit (length c.entries)) [
  | true ↦ evict_oldest c >>= λ c1. make_room_loop fuel limit c1
  | false ↦ some c
]

unfoldable pub make_room : ℕ → SafetyRequestCache → Option SafetyRequestCache
make_room limit c = make_room_loop (length c.entries + 1) limit c
