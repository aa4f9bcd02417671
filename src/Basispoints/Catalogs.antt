-- ===== src/Basispoints/Catalogs.antt =====
-- backend/internal/basispoints/catalog_cache.go: what the cache of catalogs promises to its callers.
pub mod Versions
use airgate_openai.Base.{
  Option-cases, Text, Text-discrete, byte_length, get, ℕ, ◌+◌, ◌%◌, ◌^◌, ◌≤◌, ◌<◌, ◌≡◌, refl, sym,
  ap, ◌∙◌, ◌≢◌, ◌↔◌, ◌⊎◌, inl, inr, Bool, true, false, Option, none, some, arith, ℕ_discrete,
}
use mathlib.Core.Path.{subst}
use airgate_openai.Basispoints.Elements.{
  Entry, Elements, replay_cache_idle_ttl, element_at, remove_at, remove_key, expire, touch,
  push_back, evict, enough,
}
use airgate_openai.Basispoints.Order.{address_of, element_at-append}
use airgate_openai.Basispoints.Kept.{touch_present, element_at-removed, address_of_self}
use airgate_openai.Basispoints.Loops.{Expired}
use airgate_openai.Basispoints.Sound.{Sound, expire-Sound}
use airgate_openai.Basispoints.Sound.Steps.{
  remove_key-Sound, touch-Sound, evict-Sound, found, still_gone,
}
use airgate_openai.Basispoints.Catalog.{
  Declared, CatalogCache, catalog_max_entries, catalog_max_bytes, declared, snapshot,
  current_version, replace, commit,
}

-- At most 512 catalogs in at most 16 MiB, in the order of their use, which is over by `now`.
abbrev pub CatalogSound : ℕ → Elements Declared → Type 0
CatalogSound now s = Sound catalog_max_entries catalog_max_bytes now s

declared_absent :
    (scope : Text) (s : Elements Declared)
    → get Text-discrete scope s.entries ≡ none
    → declared scope s ≡ none
unfolding declared
declared_absent scope s h = ground arith

declared_present :
    (scope : Text) (s : Elements Declared) (a : ℕ) (e : Entry Declared)
    → get Text-discrete scope s.entries ≡ some a
    → element_at a s.order ≡ some e
    → declared scope s ≡ some (a, e.payload)
unfolding declared
declared_present scope s a e h g = ground arith

snapshot_step :
    (now : ℕ) (scope : Text) (c : CatalogCache) (s : Elements Declared)
    → expire (enough c.elements) now c.elements ≡ some s
    → declared scope s ≡ none
    → snapshot now scope c ≡ some (record c { elements = s }, none, 0)
unfolding snapshot
snapshot_step now scope c s e d = ground arith

snapshot_found :
    (now : ℕ) (scope : Text) (c : CatalogCache) (s : Elements Declared) (a : ℕ) (d : Declared)
    → expire (enough c.elements) now c.elements ≡ some s
    → declared scope s ≡ some (a, d)
    → snapshot now scope c ≡ some (record c { elements = touch now a s }, some d.raw, d.version)
unfolding snapshot
snapshot_found now scope c s a d e h = ground arith

commit_stale :
    (now : ℕ) (scope : Text) (expected : ℕ) (raw : Text) (c : CatalogCache) (s : Elements Declared)
    → expire (enough c.elements) now c.elements ≡ some s
    → current_version scope s ≢ expected
    → commit now scope expected raw c ≡ some (record c { elements = s }, false)
unfolding commit
commit_stale now scope expected raw c s e h = ground arith

commit_current :
    (now : ℕ) (scope : Text) (expected : ℕ) (raw : Text) (c r : CatalogCache)
    (s : Elements Declared)
    → expire (enough c.elements) now c.elements ≡ some s
    → current_version scope s ≡ expected
    → replace now scope raw c s ≡ some r
    → commit now scope expected raw c ≡ some (r, true)
unfolding commit
commit_current now scope expected raw c r s e h g = ground arith

abbrev next_version : CatalogCache → ℕ
next_version c = (c.version + 1) % 2 ^ 64

abbrev entry : ℕ → Text → Text → ℕ → Entry Declared
entry now scope raw v = record {
  key = scope;
  weight = byte_length raw;
  used = now;
  payload = record { raw = raw; version = v };
}

replace_step :
    (now : ℕ) (scope raw : Text) (c : CatalogCache) (s r : Elements Declared)
    → let t = push_back (entry now scope raw (next_version c)) (remove_key scope s) in
      evict catalog_max_entries catalog_max_bytes (enough t) t ≡ some r
      → replace now scope raw c s ≡ some (record { elements = r; version = next_version c })
unfolding replace
replace_step now scope raw c s r h = ground arith

-- What a commit leaves that finds the version it expects.
pub record Committed (now : ℕ) (scope raw : Text) (c r : CatalogCache) : Type 0 where
  pub sound : CatalogSound now r.elements
  pub version_next : r.version ≡ next_version c
  pub there :
      byte_length raw ≤ catalog_max_bytes
      → (a : ℕ) × (get Text-discrete scope r.elements.entries ≡ some a)
        × (element_at a r.elements.order ≡ some (entry now scope raw (next_version c)))

replace-Committed :
    (now : ℕ) (scope raw : Text) (c : CatalogCache) (s : Elements Declared)
    → CatalogSound now s
    → (r : CatalogCache) × (replace now scope raw c s ≡ some r) × Committed now scope raw c r
replace-Committed now scope raw c s k =
    let (kv, n) = remove_key-Sound catalog_max_entries catalog_max_bytes now scope s k in
    let (r, g, w, m, f) =
      evict-Sound catalog_max_entries catalog_max_bytes now (entry now scope raw (next_version c))
        (remove_key scope s) refl n kv in
    (
      record { elements = r; version = next_version c },
      replace_step now scope raw c s r g,
      record {
        sound = w;
        version_next = refl;
        there = λ l. let u = f (omega arith) l in ((remove_key scope s).next, u.0, u.1);
      },
    )

-- A commit to a sound cache, at no earlier time, ends and leaves a sound cache within its bounds;
-- it succeeds exactly when the scope's version, once idle catalogs are gone, is the expected one.
pub commit-Sound :
    (t now : ℕ) (scope : Text) (expected : ℕ) (raw : Text) (c : CatalogCache)
    → t ≤ now
    → CatalogSound t c.elements
    → (s : Elements Declared) × (expire (enough c.elements) now c.elements ≡ some s)
      × ((r : CatalogCache) × (ok : Bool) × (commit now scope expected raw c ≡ some (r, ok))
          × CatalogSound now r.elements
          × ((ok ≡ true) ↔ (current_version scope s ≡ expected)))
commit-Sound t now scope expected raw c l k =
    let (s, e, ks, x) = expire-Sound catalog_max_entries catalog_max_bytes t now c.elements l k in
    (
      s,
      e,
      elim (ℕ_discrete (current_version scope s) expected) [
        | yes p ↦
            let (r, g, q) = replace-Committed now scope raw c s ks in
            (
              r,
              true,
              commit_current now scope expected raw c r s e p g,
              q.sound,
              (λ _. p, λ _. refl),
            )
        | no p ↦ (
          record c { elements = s },
          false,
          commit_stale now scope expected raw c s e p,
          ks,
          (λ f. ground arith, λ f. absurd (p f)),
        )
      ],
    )
