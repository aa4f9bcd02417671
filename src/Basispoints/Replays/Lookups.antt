-- ===== src/Basispoints/Replays/Lookups.antt =====
-- backend/internal/basispoints/tools.go: what a lookup finds.
use airgate_openai.Base.{
  Bool-cases, Option-cases, if_true, if_false, Text, Text-discrete, is_empty, get, ℕ, ◌+◌, ◌-◌, ◌≤◌,
  ◌<◌, ◌≡◌, sym, ap, ◌∙◌, inl, inr, true, false, Option, none, some, arith,
}
use mathlib.Core.Path.{subst}
use airgate_openai.Basispoints.Elements.{
  Entry, replay_cache_idle_ttl, element_at, remove_key, touch,
}
use airgate_openai.Basispoints.Kept.{address_of_self}
use airgate_openai.Basispoints.Loops.{Expired}
use airgate_openai.Basispoints.Sound.{found_before, expire-Sound}
use airgate_openai.Basispoints.Sound.Steps.{still_gone, remove_key-Sound, touch-Sound, found}
use airgate_openai.Basispoints.Replay.{
  replay_cache_max_entries, replay_cache_max_bytes, Replay, ReplayCache, replay_key, is_cacheable,
  replay_put, matches, find_replay, get_matching, replay_get,
}
use airgate_openai.Basispoints.Replays.{
  ReplaySound, entry, refused, Stored, store-Stored, put_step, get_step, find_absent, find_present,
}

-- What a lookup gives: a sound cache, and what was put under the key, idled for less than two hours,
-- and belongs to the client's call where that is asked for.
pub record Looked (now : ℕ) (key : Text) (signature : Option Text) (s : ReplayCache)
    (r : ReplayCache × Option Text) : Type 0 where
  pub sound : ReplaySound now r.0
  pub finds :
      (raw : Text)
      → r.1 ≡ some raw
      → (a : ℕ) × (e : Entry Replay) × (element_at a s.order ≡ some e)
        × (e.key ≡ key)
        × (e.payload.raw ≡ raw)
        × (now - e.used < replay_cache_idle_ttl)
        × (matches signature e.payload ≡ true)

find-Looked :
    (t now : ℕ) (key : Text) (signature : Option Text) (s r : ReplayCache)
    → t ≤ now
    → ReplaySound t s
    → ReplaySound now r
    → Expired now 0 s r
    → Looked now key signature s (find_replay now key signature r)
find-Looked t now key signature s r l k kr x =
    elim (Option-cases (get Text-discrete key r.entries)) [
      | inl h ↦
          subst (Looked now key signature s) (sym (find_absent now key signature r h))
            (record { sound = kr; finds = λ raw e. ground arith })
      | inr (a, h) ↦
          let (e, g, p) = found replay_cache_max_entries replay_cache_max_bytes r key a kr.kept h in
          let q = find_present now key signature r a e h g in
          let (u, v) = found_before now a s r e k.kept x g in
          elim (Bool-cases (matches signature e.payload)) [
            | inl m ↦ subst (Looked now key signature s) (sym (q ∙ if_true _ _ m)) (record {
              sound =
                  touch-Sound replay_cache_max_entries replay_cache_max_bytes now now a r e
                    (omega arith) g kr;
              finds = λ raw f. (a, e, u, p, ground arith, v, m);
            })
            | inr m ↦
                subst (Looked now key signature s) (sym (q ∙ if_false _ _ m))
                  (record { sound = kr; finds = λ raw e. ground arith })
          ]
    ]

-- A lookup in a sound cache, at no earlier time, ends and leaves a sound cache; what it finds was
-- there under the key, idled for less than two hours, and belongs to the client's call where that
-- is asked for.
pub get_matching-Looked :
    (t now : ℕ) (scope id : Text) (signature : Option Text) (s : ReplayCache)
    → t ≤ now
    → ReplaySound t s
    → (r : ReplayCache × Option Text) × (get_matching now scope id signature s ≡ some r)
      × Looked now (replay_key scope id) signature s r
get_matching-Looked t now scope id signature s l k =
    let (u, e, ku, x) = expire-Sound replay_cache_max_entries replay_cache_max_bytes t now s l k in
    (
      find_replay now (replay_key scope id) signature u,
      get_step now scope id signature s u e,
      find-Looked t now (replay_key scope id) signature s u l k ku x,
    )

put-Stored :
    (t now : ℕ) (scope id raw signature : Text) (s : ReplayCache)
    → t ≤ now
    → ReplaySound t s
    → is_empty id ≡ false
    → is_cacheable (replay_key scope id) raw signature ≡ true
    → (r : ReplayCache) × (replay_put now scope id (some raw) signature s ≡ some r)
      × Stored now (replay_key scope id) raw signature r
put-Stored t now scope id raw signature s l k h c =
    let key = replay_key scope id in
    let (u, e, ku, x) = expire-Sound replay_cache_max_entries replay_cache_max_bytes t now s l k in
    let (kv, n) = remove_key-Sound replay_cache_max_entries replay_cache_max_bytes now key u ku in
    let (r, g, kr) = store-Stored now key raw signature (remove_key key u) kv n c in
    (r, put_step now scope id (some raw) signature s u h e ∙ g, kr)

-- A native identity that was put into a sound cache is found by the lookup that follows, by its
-- scope and its call and with its JSON, at every time within the next two hours, if it has an id
-- and fits the limits of the cache.
pub replay_get-replay_put :
    (t now later : ℕ) (scope id raw signature : Text) (s : ReplayCache)
    → t ≤ now
    → now ≤ later
    → later < now + replay_cache_idle_ttl
    → ReplaySound t s
    → is_empty id ≡ false
    → is_cacheable (replay_key scope id) raw signature ≡ true
    → (r : ReplayCache) × (replay_put now scope id (some raw) signature s ≡ some r)
      × ((q : ReplayCache) × (replay_get later scope id r ≡ some (q, some raw)))
replay_get-replay_put t now later scope id raw signature s l m i k h c =
    let key = replay_key scope id in
    let (r, g, p) = put-Stored t now scope id raw signature s l k h c in
    let (a, u, v) = p.there in
    let (w, e, kw, x) =
      expire-Sound replay_cache_max_entries replay_cache_max_bytes now later r m p.sound in
    let v' = x.stays a (entry now key raw signature) (omega arith) v in
    let u' =
      kw.kept.leads key
      ∙ address_of_self w.next a w.order (entry now key raw signature) kw.kept.well_formed v' in
    (
      r,
      g,
      (
        touch later a w,
        get_step later scope id none r w e
            ∙ ap some (find_present later key none w a (entry now key raw signature) u' v'),
      ),
    )

-- A replacement that cannot be cached leaves nothing behind: the lookup that follows does not find
-- the id.
pub replay_get-replay_put_refused :
    (t now later : ℕ) (scope id raw signature : Text) (s : ReplayCache)
    → t ≤ now
    → now ≤ later
    → ReplaySound t s
    → is_empty id ≡ false
    → is_cacheable (replay_key scope id) raw signature ≡ false
    → (r : ReplayCache) × (replay_put now scope id (some raw) signature s ≡ some r)
      × ((q : ReplayCache) × (replay_get later scope id r ≡ some (q, none)))
replay_get-replay_put_refused t now later scope id raw signature s l m k h c =
    let key = replay_key scope id in
    let (u, e, ku, x) = expire-Sound replay_cache_max_entries replay_cache_max_bytes t now s l k in
    let r = remove_key key u in
    let (kv, n) = remove_key-Sound replay_cache_max_entries replay_cache_max_bytes now key u ku in
    let (w, f, kw, y) =
      expire-Sound replay_cache_max_entries replay_cache_max_bytes now later r m kv in
    let g =
      still_gone replay_cache_max_entries replay_cache_max_bytes later key r w kv.kept kw.kept y
        n in
    (
      r,
      put_step now scope id (some raw) signature s u h e ∙ refused now key raw signature r c,
      (w, get_step later scope id none r w f ∙ ap some (find_absent later key none w g)),
    )
