-- ===== src/Basispoints/Catalogs/Versions.antt =====
-- What the versions of the catalogs promise to those who hold one.
use airgate_openai.Base.{
  Option-cases, Text, Text-discrete, byte_length, get, ℕ, ◌+◌, ◌^◌, ◌≤◌, ◌<◌, ◌≡◌, refl, sym, ap,
  ◌∙◌, ◌≢◌, ◌⊎◌, inl, inr, true, false, Option, none, some, arith,
}
use mathlib.Core.Path.{subst}
use airgate_openai.Basispoints.Elements.{
  Entry, Elements, replay_cache_idle_ttl, element_at, remove_at, touch,
}
use airgate_openai.Basispoints.Order.{address_of, element_at-append}
use airgate_openai.Basispoints.Kept.{touch_present, element_at-removed, address_of_self}
use airgate_openai.Basispoints.Loops.{Expired}
use airgate_openai.Basispoints.Sound.{expire-Sound}
use airgate_openai.Basispoints.Sound.Steps.{touch-Sound, found, still_gone}
use airgate_openai.Basispoints.Catalog.{
  Declared, CatalogCache, catalog_max_entries, catalog_max_bytes, declared, snapshot,
  current_version, commit,
}
use airgate_openai.Basispoints.Catalogs.{
  CatalogSound, declared_absent, declared_present, snapshot_step, snapshot_found, commit_stale,
  commit_current, next_version, entry, replace-Committed,
}

-- The version that a caller holds of a scope's catalog, used at `now`, or 0 where there is none.
unfoldable pub Holds : ℕ → Text → ℕ → Elements Declared → Type 0
Holds now scope v s =
    ((get Text-discrete scope s.entries ≡ none) × (v ≡ 0))
    ⊎ ((a : ℕ) × (e : Entry Declared) × (get Text-discrete scope s.entries ≡ some a)
        × (element_at a s.order ≡ some e)
        × (e.key ≡ scope)
        × (e.used ≡ now)
        × (e.payload.version ≡ v))

touched :
    (now a : ℕ) (scope : Text) (s : Elements Declared) (e : Entry Declared)
    → CatalogSound now s
    → get Text-discrete scope s.entries ≡ some a
    → element_at a s.order ≡ some e
    → (touch now a s).entries ≡ s.entries
      × (element_at a (touch now a s).order ≡ some (record e { used = now }))
touched now a scope s e k g h =
    let r = touch_present now a s e h in
    let e' = record e { used = now } in
    let n = element_at-removed s.next a s.order k.kept.well_formed in
    (
      ap (λ (t : Elements Declared). t.entries) r,
      ap (λ (t : Elements Declared). element_at a t.order) r
          ∙ element_at-append a a e' (remove_at a s.order) n
          ∙ ground arith,
    )

-- A snapshot ends, leaves a sound cache, and gives the version that is there, with its catalog.
pub snapshot-Sound :
    (t now : ℕ) (scope : Text) (c : CatalogCache)
    → t ≤ now
    → CatalogSound t c.elements
    → (r : CatalogCache) × (previous : Option Text) × (v : ℕ) × (snapshot now scope c
        ≡ some (r, previous, v))
      × CatalogSound now r.elements
      × Holds now scope v r.elements
      × (r.version ≡ c.version)
unfolding Holds
snapshot-Sound t now scope c l k =
    let (s, e, ks, x) = expire-Sound catalog_max_entries catalog_max_bytes t now c.elements l k in
    elim (Option-cases (get Text-discrete scope s.entries)) [
      | inl h ↦ (
        record c { elements = s },
        none,
        0,
        snapshot_step now scope c s e (declared_absent scope s h),
        ks,
        inl (h, refl),
        refl,
      )
      | inr (a, h) ↦
          let (d, g, p) = found catalog_max_entries catalog_max_bytes s scope a ks.kept h in
          let (u, w) = touched now a scope s d ks h g in
          (
            record c { elements = touch now a s },
            some d.payload.raw,
            d.payload.version,
            snapshot_found now scope c s a d.payload e (declared_present scope s a d h g),
            touch-Sound catalog_max_entries catalog_max_bytes now now a s d (omega arith) g ks,
            inr (a, record d { used = now }, ap (get Text-discrete scope) u ∙ h, w, p, refl, refl),
            refl,
          )
    ]

current_absent :
    (scope : Text) (s : Elements Declared) → declared scope s ≡ none → current_version scope s ≡ 0
unfolding current_version
current_absent scope s h = ground arith

current_present :
    (scope : Text) (s : Elements Declared) (a : ℕ) (d : Declared)
    → declared scope s ≡ some (a, d)
    → current_version scope s ≡ d.version
unfolding current_version
current_present scope s a d h = ground arith

-- Who holds a version finds it still there, less than two hours later.
held :
    (now later v : ℕ) (scope : Text) (s r : Elements Declared)
    → later < now + replay_cache_idle_ttl
    → CatalogSound now s
    → CatalogSound later r
    → Expired later 0 s r
    → Holds now scope v s
    → current_version scope r ≡ v
unfolding Holds
held now later v scope s r l k kr x (inl (h, z)) =
    current_absent scope r (
      declared_absent scope r
        (still_gone catalog_max_entries catalog_max_bytes later scope s r k.kept kr.kept x h))
    ∙ sym z
held now later v scope s r l k kr x (inr (a, e, h, g, p, u, z)) =
    let g' = x.stays a e (omega (arith, l, u)) g in
    let h' =
      kr.kept.leads scope
      ∙ subst (λ j. address_of j r.order ≡ some a) p
          (address_of_self r.next a r.order e kr.kept.well_formed g') in
    current_present scope r a e.payload (declared_present scope r a e h' g') ∙ z

-- A commit that follows its snapshot within two hours, with no call between them, succeeds.
pub commit-snapshot :
    (now later v : ℕ) (scope raw : Text) (c : CatalogCache)
    → now ≤ later
    → later < now + replay_cache_idle_ttl
    → CatalogSound now c.elements
    → Holds now scope v c.elements
    → (r : CatalogCache) × (commit later scope v raw c ≡ some (r, true))
      × CatalogSound later r.elements
commit-snapshot now later v scope raw c l m k h =
    let (s, e, ks, x) =
      expire-Sound catalog_max_entries catalog_max_bytes now later c.elements l k in
    let (r, g, q) = replace-Committed later scope raw c s ks in
    (
      r,
      commit_current later scope v raw c r s e (held now later v scope c.elements s m k ks x h) g,
      q.sound,
    )

there_Holds :
    (now a : ℕ) (scope raw : Text) (c r : CatalogCache)
    → get Text-discrete scope r.elements.entries ≡ some a
    → element_at a r.elements.order ≡ some (entry now scope raw (next_version c))
    → Holds now scope (next_version c) r.elements
unfolding Holds
there_Holds now a scope raw c r h g =
    inr (a, entry now scope raw (next_version c), h, g, refl, refl, refl)

new_version :
    (c : CatalogCache) (v : ℕ) → c.version + 1 < 2 ^ 64 → v ≤ c.version → next_version c ≢ v
new_version c v b u = λ e. omega (arith, b, u, e)

-- A request that is overtaken cannot undo what overtook it: a commit of a catalog that fits, by one
-- who holds the scope's version in a sound cache, succeeds within two hours, and a commit that
-- follows it, within two hours again, with any version given before, fails, while the counter does
-- not wrap around.
pub commit_overtaken :
    (now later last v w : ℕ) (scope raw late : Text) (c : CatalogCache)
    → now ≤ later
    → later < now + replay_cache_idle_ttl
    → later ≤ last
    → last < later + replay_cache_idle_ttl
    → CatalogSound now c.elements
    → Holds now scope w c.elements
    → byte_length raw ≤ catalog_max_bytes
    → c.version + 1 < 2 ^ 64
    → v ≤ c.version
    → (r : CatalogCache) × (commit later scope w raw c ≡ some (r, true))
      × ((q : CatalogCache) × (commit last scope v late r ≡ some (q, false)))
commit_overtaken now later last v w scope raw late c l m l' m' k h f b u =
    let (s, e, ks, x) =
      expire-Sound catalog_max_entries catalog_max_bytes now later c.elements l k in
    let (r, g, q) = replace-Committed later scope raw c s ks in
    let (a, i, j) = q.there f in
    let (z, o, kz, y) =
      expire-Sound catalog_max_entries catalog_max_bytes later last r.elements l' q.sound in
    let n =
      held later last (next_version c) scope r.elements z m' q.sound kz y
        (there_Holds later a scope raw c r i j) in
    (
      r,
      commit_current later scope w raw c r s e (held now later w scope c.elements s m k ks x h) g,
      (
        record r { elements = z },
        commit_stale last scope v late r z o (λ p. new_version c v b u (sym n ∙ p)),
      ),
    )
