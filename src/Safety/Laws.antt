-- ===== src/Safety/Laws.antt =====
-- What the methods of safety_request_cache.go promise their callers.
use airgate_openai.Base.{
  ltb, if◌then◌else◌, lt→ltb, Option-cases, length, All, Text, is_empty, GoMap, get, ℕ, ◌+◌, ◌≤◌,
  ◌<◌, ◌≡◌, refl, ap, ◌∙◌, ◌≢◌, inl, inr, Bool, true, false, Option, none, some, List, [], ◌∷◌,
  ◌++◌, map, arith, ℕ_discrete,
}
use mathlib.Core.Path.{subst, ap₂}
use airgate_openai.Safety.Cache.{
  Entry, SafetyRequestCache, default_ttl, default_max_entries, load, category_count, empty_cache,
}
use airgate_openai.Safety.Store.{
  lookup_locked, lookup, stats_with_category_counts, add_loop, or_default, normalize_cached_reason,
  normalize_cache_category, clamp_expiry, add_locked, add_hashes, add_with_reason,
}
use airgate_openai.Safety.Segment.{Item, node, last_or, IsSegment, AreDistinct}
use airgate_openai.Safety.Spec.{
  drop_expired, drop_oldest, find, refreshed, spec_add, spec_add_all, count_in, Represents,
}
use airgate_openai.Safety.Lists.{find-none, find-absent, find_split, middle-Avoids}
use airgate_openai.Safety.Segment.{IsSegment-append_right}
use airgate_openai.Safety.Refine.{purge_expired_lem}
use airgate_openai.Safety.Loop.{add_loop_lem}
use airgate_openai.Safety.Order.{
  IsOrdered, clamped, All-drop_oldest, clamped-ExpireBy, spec_add_all-Keeping, if_alive,
  IsOrdered-drop_expired, length-drop_expired-le, find-drop_expired,
}

abbrev pub effective_limit : ℕ → ℕ → ℕ
effective_limit limit d = or_default limit (or_default d default_max_entries)

abbrev pub effective_ttl : ℕ → ℕ → ℕ
effective_ttl ttl d = or_default ttl (or_default d default_ttl)

-- A cache in use: it represents items, in the order of their expiry, within the limit.
pub record Holds (ttl limit room : ℕ) (c : SafetyRequestCache) (l : List Item) : Type 0 where
  pub represents : Represents ttl limit c l
  pub ordered : IsOrdered l
  pub bounded : length l ≤ room

-- The items after an addition.
abbrev pub added : ℕ → ℕ → Text → Text → List ℕ → ℕ → ℕ → List Item → List Item
added ttl room reason category hashes now default_ttl' l =
    let live = drop_expired now l in
    spec_add_all room (clamped (now + effective_ttl ttl default_ttl') live)
      (normalize_cached_reason reason) (normalize_cache_category category) hashes live

last_segment :
    (m : GoMap ℕ Entry) (older : Option ℕ) (x : Item) (xs : List Item)
    → IsSegment m older (x ∷ xs) none
    → (p : ℕ) × (e : Entry) × (last_or (x ∷ xs) older ≡ some p)
      × (get ℕ_discrete p m ≡ some e)
      × ((t : ℕ) → clamped t (x ∷ xs) ≡ (if ltb t e.expires_at then e.expires_at else t))
unfolding clamped
last_segment m older x [] s = (x.hash, node x older none, refl, s.0, λ t. refl)
last_segment m older x (y ∷ xs) s = last_segment m (some x.hash) y xs s.1

clamp_expiry_lem :
    (ttl limit t : ℕ) (c : SafetyRequestCache) (l : List Item)
    → Represents ttl limit c l
    → clamp_expiry c.newest t c ≡ some (clamped t l)
unfolding clamp_expiry clamped
clamp_expiry_lem ttl limit t c [] r = ap (λ n. clamp_expiry n t c) r.linked.last
clamp_expiry_lem ttl limit t c (x ∷ xs) r =
    let (p, e, last, found, same) = last_segment c.entries none x xs r.linked.segment in
    ap (λ n. clamp_expiry n t c) (r.linked.last ∙ last) ∙ rw (found, same)

or_default-pos : (n d e : ℕ) → 0 < e → 0 < or_default n (or_default d e)
or_default-pos n d e p = ground arith

-- An addition of hashes to a cache in use ends without a fault. The new cache holds the items that
-- are not expired, and each hash is refreshed or inserted as the newest, the oldest making room.
pub add_hashes_lem :
    (ttl limit : ℕ) (c : SafetyRequestCache) (l : List Item) (h : ℕ) (hs : List ℕ) (now : ℕ)
    (reason category : Text) (default_ttl' default_max' : ℕ)
    → Holds ttl limit (effective_limit limit default_max') c l
    → (c' : SafetyRequestCache) × (add_hashes
          (some c)
          (h ∷ hs)
          now
          reason
          category
          default_ttl'
          default_max'
        ≡ some (some c'))
      × Holds ttl limit (effective_limit limit default_max') c' (
          added ttl
            (effective_limit limit default_max')
            reason
            category
            (h ∷ hs)
            now
            default_ttl'
            l)
unfolding add_hashes add_locked
add_hashes_lem ttl limit c l h hs now reason category default_ttl' default_max' k =
    let room = effective_limit limit default_max' in
    let positive = or_default-pos limit default_max' default_max_entries (omega arith) in
    let live = drop_expired now l in
    let t = now + effective_ttl ttl default_ttl' in
    let reason' = normalize_cached_reason reason in
    let category' = normalize_cache_category category in
    let (c1, e1, r1) = purge_expired_lem ttl limit now c l k.represents in
    let (c2, e2, r2) =
      add_loop_lem ttl limit room (clamped t live) reason' category' (h ∷ hs) c1 live positive r1 in
    let ordered = IsOrdered-drop_expired now l k.ordered in
    let kept =
      spec_add_all-Keeping room (clamped t live) reason' category' (h ∷ hs) live positive (record {
        ordered = ordered;
        by = clamped-ExpireBy t live ordered;
        bounded = omega (arith, length-drop_expired-le now l, k.bounded);
      }) in
    let r = k.represents in
    let e3 =
      ap (λ n. clamp_expiry c1.newest (now + effective_ttl n default_ttl') c1) r.same_ttl
      ∙ clamp_expiry_lem ttl limit t c1 live r1 in
    let e4 =
      ap
        (λ n.
          add_loop (effective_limit n default_max') (clamped t live) reason' category' (h ∷ hs) c1)
        r.same_limit
      ∙ e2 in
    (
      c2,
      rw (e1, e3, e4),
      record { represents = r2; ordered = kept.ordered; bounded = kept.bounded },
    )

-- What a lookup tells of an item.
abbrev pub told : Option Item → Text × Bool
told none = ([], false)
told (some x) = (x.reason, true)

load-find :
    (ttl limit : ℕ) (c : SafetyRequestCache) (l : List Item) (h : ℕ)
    → Represents ttl limit c l
    → elim (load h c) [ none ↦ ([], false) | some entry ↦ (entry.reason, true) ] ≡ told (find h l)
unfolding load
load-find ttl limit c l h r = elim (Option-cases (find h l)) [
  | inl missing ↦ rw (r.absent h (find-none h l missing), missing)
  | inr (x, found) ↦
      let (xs, ys, l_eq, h_eq, rest) = find_split h l found in
      let r' = subst (Represents ttl limit c) l_eq r in
      let s = IsSegment-append_right c.entries none none xs (x ∷ ys) r'.linked.segment in
      rw (rw h_eq at s.0, found)
]

-- A lookup in a cache in use ends without a fault. It finds the hash exactly when an item with it
-- lives past `now`, then gives that item's reason, and it drops the expired items alone.
pub lookup_lem :
    (ttl limit room : ℕ) (c : SafetyRequestCache) (l : List Item) (h now : ℕ)
    → Holds ttl limit room c l
    → (c' : SafetyRequestCache) × (lookup (some c) h now
        ≡ some (some c', told (if_alive now (find h l))))
      × Holds ttl limit room c' (drop_expired now l)
unfolding lookup lookup_locked
lookup_lem ttl limit room c l h now k =
    let (c1, e1, r1) = purge_expired_lem ttl limit now c l k.represents in
    let seen =
      load-find ttl limit c1 (drop_expired now l) h r1
      ∙ ap told (find-drop_expired h now l k.ordered k.represents.items_distinct) in
    (
      c1,
      rw e1 (ap (λ v. some (some c1, v)) seen),
      record {
        represents = r1;
        ordered = IsOrdered-drop_expired now l k.ordered;
        bounded = omega (arith, length-drop_expired-le now l, k.bounded);
      },
    )

find-append_none :
    (h : ℕ) (l : List Item) (x : Item)
    → find h l ≡ none
    → x.hash ≡ h
    → find h (l ++ x ∷ []) ≡ some x
unfolding find
find-append_none h [] x e s = ground arith
find-append_none h (y ∷ l) x e s = ground (arith, find-append_none h l x)

find-spec_add :
    (room t : ℕ) (reason category : Text) (h : ℕ) (l : List Item)
    → AreDistinct l
    → (y : Item) × (find h (spec_add room t reason category h l) ≡ some y)
      × (y.expires_at ≡ t)
      × (is_empty reason ≡ false → y.reason ≡ reason)
unfolding spec_add refreshed
find-spec_add room t reason category h l d = elim (Option-cases (find h l)) [
  | inl missing ↦ (
    record { expires_at = t; reason = reason; category = category; hash = h },
    rw (missing, spec_add)
        (find-append_none h (drop_oldest room l) _
          (find-absent h (drop_oldest room l)
            (All-drop_oldest (λ (z : Item). z.hash ≢ h) room l (find-none h l missing)))
          refl),
    refl,
    λ e. refl,
  )
  | inr (x, found) ↦
      let (xs, ys, l_eq, h_eq, rest) = find_split h l found in
      let a = middle-Avoids xs x ys (subst AreDistinct l_eq d) in
      (
        refreshed t reason category x,
        rw (found, spec_add, rest)
            (find-append_none h (xs ++ ys) _ (find-absent h (xs ++ ys) (rw h_eq at a)) h_eq),
        refl,
        λ e. rw e,
      )
]

-- A rejection that is added at `now` with a reason that is not blank is found by the lookup that
-- comes next, at any time before the expiry of the added item: `now + ttl`, or the expiry of the
-- newest item that is live at `now` where that is later. The lookup returns the reason as it is kept:
-- trimmed, and one of more than 2048 characters cut to that many with three dots after them.
pub lookup-add_with_reason :
    (ttl limit : ℕ) (c : SafetyRequestCache) (l : List Item) (h now later : ℕ) (reason : Text)
    → Holds ttl limit (effective_limit limit default_max_entries) c l
    → is_empty (normalize_cached_reason reason) ≡ false
    → later < clamped (now + effective_ttl ttl default_ttl) (drop_expired now l)
    → (c' : SafetyRequestCache) × (c'' : SafetyRequestCache) × (add_with_reason
          (some c)
          h
          now
          reason
        ≡ some (some c'))
      × (lookup (some c') h later ≡ some (some c'', (normalize_cached_reason reason, true)))
unfolding add_with_reason if_alive spec_add_all
lookup-add_with_reason ttl limit c l h now later reason k nonempty soon =
    let room = effective_limit limit default_max_entries in
    let live = drop_expired now l in
    let t = now + effective_ttl ttl default_ttl in
    let (c1, e1, k1) =
      add_hashes_lem ttl limit c l h [] now reason [] default_ttl default_max_entries k in
    let (c2, e2, r2) = lookup_lem ttl limit room c1 _ h later k1 in
    let (p1, q1, r1) = purge_expired_lem ttl limit now c l k.represents in
    let (y, found, expiry, why) =
      find-spec_add room (clamped t live) (normalize_cached_reason reason)
        (normalize_cache_category []) h live r1.items_distinct in
    let alive = lt→ltb later y.expires_at (omega (arith, soon, expiry)) in
    (c1, c2, e1, e2 ∙ rw (found, alive, why nonempty))

-- The empty cache holds no item.
pub empty_cache-Holds : (ttl limit room : ℕ) → Holds ttl limit room (empty_cache ttl limit) []
unfolding empty_cache category_count get
empty_cache-Holds ttl limit room = record {
  represents = record {
    linked = record { segment = tt; first = refl; last = refl };
    items_distinct = tt;
    entries_distinct = tt;
    absent = λ k a. refl;
    size = refl;
    counts = λ g h. refl;
    same_ttl = refl;
    same_limit = refl;
  };
  ordered = tt;
  bounded = omega arith;
}

map_counts :
    (ttl limit : ℕ) (c : SafetyRequestCache) (l : List Item) (categories : List Text)
    → Represents ttl limit c l
    → All (λ g. is_empty (normalize_cache_category g) ≡ false) categories
    → map (λ g. category_count (normalize_cache_category g) c.categories) categories
      ≡ map (λ g. count_in (normalize_cache_category g) l) categories
map_counts ttl limit c l [] r a = refl
map_counts ttl limit c l (g ∷ gs) r a =
    ap₂ ◌∷◌ (r.counts (normalize_cache_category g) a.0) (map_counts ttl limit c l gs r a.1)

-- The statistics of a cache in use: the number of the items that live past `now`, the capacity, and
-- for each category that is not blank how many of those items have it.
pub stats_with_category_counts_lem :
    (ttl limit room : ℕ) (c : SafetyRequestCache) (l : List Item) (now default_capacity : ℕ)
    (categories : List Text)
    → Holds ttl limit room c l
    → All (λ g. is_empty (normalize_cache_category g) ≡ false) categories
    → let live = drop_expired now l in
      (c' : SafetyRequestCache) × (stats_with_category_counts
          (some c)
          now
          default_capacity
          categories
        ≡ some (
          some c',
          (
            length live,
            effective_limit limit default_capacity,
            map (λ g. count_in (normalize_cache_category g) live) categories,
          ),
        ))
      × Represents ttl limit c' live
unfolding stats_with_category_counts
stats_with_category_counts_lem ttl limit room c l now default_capacity categories k a =
    let (c1, e1, r1) = purge_expired_lem ttl limit now c l k.represents in
    (
      c1,
      rw (e1, r1.size, map_counts ttl limit c1 (drop_expired now l) categories r1 a)
          (ap
            (λ n. some (
              some c1,
              (
                length (drop_expired now l),
                effective_limit n default_capacity,
                map (λ g. count_in (normalize_cache_category g) (drop_expired now l)) categories,
              ),
            ))
            k.represents.same_limit),
      r1,
    )
