-- ===== src/Basispoints/Catalog.antt =====
-- backend/internal/basispoints/catalog_cache.go: the cache of tool catalogs, with their versions.
use airgate_openai.Base.{
  ◌==◌, if◌then◌else◌, ◌>>=◌, Text, Text-discrete, byte_length, get, ℕ, ◌+◌, ◌%◌, ◌^◌, Bool, true,
  false, Option, none, some,
}
use airgate_openai.Basispoints.Elements.{
  Elements, empty_elements, element_at, remove_key, expire, touch, push_back, evict, enough,
}

-- `catalogEntry`, whose scope is the key, and whose weight the length of the bytes.
pub record Declared : Type 0 where
  pub raw : Text
  pub version : ℕ

pub record CatalogCache : Type 0 where
  pub elements : Elements Declared
  pub version : ℕ

abbrev pub empty_catalog_cache : CatalogCache
empty_catalog_cache = record { elements = empty_elements; version = 0 }

abbrev pub catalog_max_entries : ℕ
catalog_max_entries = 512

abbrev pub catalog_max_bytes : ℕ
catalog_max_bytes = 16_777_216

-- The element of a scope.
unfoldable pub declared : Text → Elements Declared → Option (ℕ × Declared)
declared scope s = elim (get Text-discrete scope s.entries) [
  | none ↦ none
  | some a ↦ elim (element_at a s.order) [ none ↦ none | some e ↦ some (a, e.payload) ]
]

-- The catalog and its version; a missing one is `nil` and 0.
unfoldable pub snapshot : ℕ → Text → CatalogCache → Option (CatalogCache × Option Text × ℕ)
snapshot now scope c = expire (enough c.elements) now c.elements >>= λ s.
    some (elim (declared scope s) [
      | none ↦ (record c { elements = s }, none, 0)
      | some (a, d) ↦ (record c { elements = touch now a s }, some d.raw, d.version)
    ])

-- `current`
unfoldable pub current_version : Text → Elements Declared → ℕ
current_version scope s = elim (declared scope s) [ none ↦ 0 | some (a, d) ↦ d.version ]

-- The replacement of a scope's catalog, the versions being equal.
unfoldable pub replace : ℕ → Text → Text → CatalogCache → Elements Declared → Option CatalogCache
replace now scope raw c s =
    let v = (c.version + 1) % 2 ^ 64 in
    let t =
      push_back
        (record {
          key = scope;
          weight = byte_length raw;
          used = now;
          payload = record { raw = raw; version = v };
        })
        (remove_key scope s) in
    evict catalog_max_entries catalog_max_bytes (enough t) t >>= λ r.
    some (record { elements = r; version = v })

unfoldable pub commit : ℕ → Text → ℕ → Text → CatalogCache → Option (CatalogCache × Bool)
commit now scope expected raw c = expire (enough c.elements) now c.elements >>= λ s.
    if current_version scope s == expected
    then (replace now scope raw c s >>= λ r. some (r, true))
    else some (record c { elements = s }, false)
