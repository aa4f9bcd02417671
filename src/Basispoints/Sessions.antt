-- ===== src/Basispoints/Sessions.antt =====
-- `PrepareWithCatalog` of backend/internal/basispoints/catalog_cache.go: that it ends, and when it is
-- told to try again.
pub mod Answers
use airgate_openai.Base.{
  if◌then◌else◌, Bool-cases, Sum-cases, if_true, if_false, take, Text, codes, is_empty, is_text,
  GoMap, ℕ, ◌+◌, ◌≤◌, ◌<◌, ◌≡◌, refl, sym, ap, ◌∙◌, ◌≢◌, ◌⊎◌, inl, inr, Bool, true, false, ◌||◌,
  Option, none, some, List, [], ◌∷◌, arith,
}
use airgate_openai.Base.Json.{Json, obj, Fields, field_at, string_of, is_present}
use airgate_openai.Basispoints.Elements.{replay_cache_idle_ttl}
use airgate_openai.Basispoints.Sound.{Sound-later}
use airgate_openai.Basispoints.Catalog.{
  catalog_max_entries, catalog_max_bytes, CatalogCache, snapshot, commit,
}
use airgate_openai.Basispoints.Catalogs.{CatalogSound, commit-Sound}
use airgate_openai.Basispoints.Catalogs.Versions.{Holds, snapshot-Sound, commit-snapshot}
use airgate_openai.Basispoints.Session.{
  Tool, PrepareError, changed_concurrently, Prepared, failed, prepared, Call, snapshots, commits,
  time, run_call, run_calls, Attempt, max_attempts, work, attempts, prepare_with_catalog,
}

-- Calls from `t` to `u`, in the order of their times.
abbrev pub InOrder : ℕ → List Call → ℕ → Type 0
InOrder t [] u = t ≤ u
InOrder t (k ∷ ks) u = (t ≤ time k) × InOrder (time k) ks u

-- Attempts in the order of their times.
abbrev pub Scheduled : ℕ → List Attempt → Type 0
Scheduled t [] = Unit
Scheduled t (a ∷ later) =
    InOrder t a.earlier a.snapshot_at
    × InOrder a.snapshot_at a.between a.commit_at
    × Scheduled a.commit_at later

-- No other call comes between the snapshot and the commit, which is less than two hours later.
abbrev pub Quiet : Attempt → Type 0
Quiet a =
    (a.between ≡ [])
    × (a.snapshot_at ≤ a.commit_at)
    × (a.commit_at < a.snapshot_at + replay_cache_idle_ttl)

abbrev pub AnyQuiet : List Attempt → Type 0
AnyQuiet [] = ⊥
AnyQuiet (a ∷ later) = Quiet a ⊎ AnyQuiet later

call_step :
    (now : ℕ) (scope : Text) (c r : CatalogCache) (previous : Option Text) (v : ℕ)
    → snapshot now scope c ≡ some (r, previous, v)
    → run_call (snapshots now scope) c ≡ some r
unfolding run_call
call_step now scope c r previous v e = ground arith

commit_step :
    (now : ℕ) (scope raw : Text) (expected : ℕ) (c r : CatalogCache) (ok : Bool)
    → commit now scope expected raw c ≡ some (r, ok)
    → run_call (commits now scope expected raw) c ≡ some r
unfolding run_call
commit_step now scope raw expected c r ok e = ground arith

run_call-Sound :
    (t : ℕ) (k : Call) (c : CatalogCache)
    → t ≤ time k
    → CatalogSound t c.elements
    → (r : CatalogCache) × (run_call k c ≡ some r) × CatalogSound (time k) r.elements
run_call-Sound t (snapshots now scope) c l k =
    let (r, p, v, e, w, h, n) = snapshot-Sound t now scope c l k in
    (r, call_step now scope c r p v e, w)
run_call-Sound t (commits now scope expected raw) c l k =
    let (s, e, (r, ok, g, w, i)) = commit-Sound t now scope expected raw c l k in
    (r, commit_step now scope raw expected c r ok g, w)

calls_step :
    (k : Call) (ks : List Call) (c d : CatalogCache)
    → run_call k c ≡ some d
    → run_calls (k ∷ ks) c ≡ run_calls ks d
unfolding run_calls
calls_step k ks c d e = ground arith

-- The calls of others end, and leave a sound cache.
run_calls-Sound :
    (t u : ℕ) (ks : List Call) (c : CatalogCache)
    → InOrder t ks u
    → CatalogSound t c.elements
    → (r : CatalogCache) × (run_calls ks c ≡ some r) × CatalogSound u r.elements
unfolding run_calls
run_calls-Sound t u [] c l k =
    (c, refl, Sound-later catalog_max_entries catalog_max_bytes t u c.elements l k)
run_calls-Sound t u (x ∷ ks) c l k =
    let (d, e, kd) = run_call-Sound t x c l.0 k in
    let (r, g, kr) = run_calls-Sound (time x) u ks d l.1 kd in (r, calls_step x ks c d e ∙ g, kr)

no_calls : (c : CatalogCache) → run_calls [] c ≡ some c
unfolding run_calls
no_calls c = refl

abbrev the_or : CatalogCache → Option CatalogCache → CatalogCache
the_or c none = c
the_or c (some d) = d

abbrev flag : Option (CatalogCache × Bool) → Bool
flag none = true
flag (some r) = r.1
