-- ===== src/Basispoints/Replays.antt =====
-- backend/internal/basispoints/tools.go: what the cache of tool identities promises.
pub mod Lookups
use airgate_openai.Base.{
  if◌then◌else◌, Bool-cases, Option-cases, if_true, if_false, Text, Text-discrete, is_empty, get, ℕ,
  ◌+◌, ◌-◌, ◌≤◌, ◌<◌, ◌≡◌, refl, sym, ap, ◌∙◌, inl, inr, true, false, Option, none, some, arith,
}
use mathlib.Core.Path.{subst}
use airgate_openai.Basispoints.Elements.{
  Entry, replay_cache_idle_ttl, element_at, remove_key, expire, touch, push_back, evict, enough,
}
use airgate_openai.Basispoints.Kept.{address_of_self}
use airgate_openai.Basispoints.Loops.{Expired}
use airgate_openai.Basispoints.Sound.{found_before, Sound, Sound-later, expire-Sound}
use airgate_openai.Basispoints.Sound.Steps.{
  still_gone, remove_key-Sound, touch-Sound, evict-Sound, found,
}
use airgate_openai.Basispoints.Replay.{
  replay_cache_max_entries, replay_cache_max_bytes, Replay, ReplayCache, replay_key, replay_weight,
  is_cacheable, store_replay, replay_put, matches, find_replay, get_matching, replay_get,
}

-- At most 1024 identities in at most 16 MiB, in the order of their use, which is over by `now`.
abbrev pub ReplaySound : ℕ → ReplayCache → Type 0
ReplaySound now s = Sound replay_cache_max_entries replay_cache_max_bytes now s

abbrev entry : ℕ → Text → Text → Text → Entry Replay
entry now key raw signature = record {
  key = key;
  weight = replay_weight key raw signature;
  used = now;
  payload = record { raw = raw; call_fingerprint = signature };
}

refused :
    (now : ℕ) (key raw signature : Text) (s : ReplayCache)
    → is_cacheable key raw signature ≡ false
    → store_replay now key (some raw) signature s ≡ some s
unfolding store_replay
refused now key raw signature s h = ground arith

stored :
    (now : ℕ) (key raw signature : Text) (s : ReplayCache)
    → is_cacheable key raw signature ≡ true
    → let t = push_back (entry now key raw signature) s in
      store_replay now key (some raw) signature s
      ≡ evict replay_cache_max_entries replay_cache_max_bytes (enough t) t
unfolding store_replay
stored now key raw signature s h = ground arith

not_stored :
    (now : ℕ) (key signature : Text) (s : ReplayCache)
    → store_replay now key none signature s ≡ some s
unfolding store_replay
not_stored now key signature s = refl

fits :
    (key raw signature : Text)
    → is_cacheable key raw signature ≡ true
    → replay_weight key raw signature ≤ replay_cache_max_bytes
unfolding is_cacheable
fits key raw signature h = ground arith

-- What a cacheable identity becomes, and what an uncacheable one does.
record Stored (now : ℕ) (key raw signature : Text) (r : ReplayCache) : Type 0 where
  pub sound : ReplaySound now r
  pub there :
      (a : ℕ) × (get Text-discrete key r.entries ≡ some a)
      × (element_at a r.order ≡ some (entry now key raw signature))

store-Stored :
    (now : ℕ) (key raw signature : Text) (s : ReplayCache)
    → ReplaySound now s
    → get Text-discrete key s.entries ≡ none
    → is_cacheable key raw signature ≡ true
    → (r : ReplayCache) × (store_replay now key (some raw) signature s ≡ some r)
      × Stored now key raw signature r
store-Stored now key raw signature s k h c =
    let (r, g, w, n, f) =
      evict-Sound replay_cache_max_entries replay_cache_max_bytes now (entry now key raw signature)
        s refl h k in
    let u = f (omega arith) (fits key raw signature c) in
    (r, stored now key raw signature s c ∙ g, record { sound = w; there = (s.next, u.0, u.1) })

store-Sound :
    (now : ℕ) (key : Text) (raw : Option Text) (signature : Text) (s : ReplayCache)
    → ReplaySound now s
    → get Text-discrete key s.entries ≡ none
    → (r : ReplayCache) × (store_replay now key raw signature s ≡ some r) × ReplaySound now r
store-Sound now key none signature s k h = (s, not_stored now key signature s, k)
store-Sound now key (some raw) signature s k h =
    elim (Bool-cases (is_cacheable key raw signature)) [
      | inl c ↦ let (r, g, q) = store-Stored now key raw signature s k h c in (r, g, q.sound)
      | inr c ↦ (s, refused now key raw signature s c, k)
    ]

put_step :
    (now : ℕ) (scope id : Text) (raw : Option Text) (signature : Text) (s t : ReplayCache)
    → is_empty id ≡ false
    → expire (enough s) now s ≡ some t
    → replay_put now scope id raw signature s
      ≡ store_replay now (replay_key scope id) raw signature (remove_key (replay_key scope id) t)
unfolding replay_put
put_step now scope id raw signature s t h e = ground arith

put_nothing :
    (now : ℕ) (scope id : Text) (raw : Option Text) (signature : Text) (s : ReplayCache)
    → is_empty id ≡ true
    → replay_put now scope id raw signature s ≡ some s
unfolding replay_put
put_nothing now scope id raw signature s h = ground arith

get_step :
    (now : ℕ) (scope id : Text) (signature : Option Text) (s t : ReplayCache)
    → expire (enough s) now s ≡ some t
    → get_matching now scope id signature s
      ≡ some (find_replay now (replay_key scope id) signature t)
unfolding get_matching
get_step now scope id signature s t e = ground arith

-- A put into a sound cache, at no earlier time, ends and leaves a sound cache within its bounds,
-- whatever the identity and whether or not its JSON could be written.
pub replay_put-Sound :
    (t now : ℕ) (scope id : Text) (raw : Option Text) (signature : Text) (s : ReplayCache)
    → t ≤ now
    → ReplaySound t s
    → (r : ReplayCache) × (replay_put now scope id raw signature s ≡ some r) × ReplaySound now r
replay_put-Sound t now scope id raw signature s l k = elim (Bool-cases (is_empty id)) [
  | inl h ↦ (
    s,
    put_nothing now scope id raw signature s h,
    Sound-later replay_cache_max_entries replay_cache_max_bytes t now s l k,
  )
  | inr h ↦
      let key = replay_key scope id in
      let (u, e, ku, x) =
        expire-Sound replay_cache_max_entries replay_cache_max_bytes t now s l k in
      let (kv, n) = remove_key-Sound replay_cache_max_entries replay_cache_max_bytes now key u ku in
      let (r, g, kr) = store-Sound now key raw signature (remove_key key u) kv n in
      (r, put_step now scope id raw signature s u h e ∙ g, kr)
]

find_absent :
    (now : ℕ) (key : Text) (signature : Option Text) (s : ReplayCache)
    → get Text-discrete key s.entries ≡ none
    → find_replay now key signature s ≡ (s, none)
unfolding find_replay
find_absent now key signature s h = ground arith

find_present :
    (now : ℕ) (key : Text) (signature : Option Text) (s : ReplayCache) (a : ℕ) (e : Entry Replay)
    → get Text-discrete key s.entries ≡ some a
    → element_at a s.order ≡ some e
    → find_replay now key signature s
      ≡ (if matches signature e.payload then (touch now a s, some e.payload.raw) else (s, none))
unfolding find_replay
find_present now key signature s a e h g = ground arith
