-- ===== src/Basispoints/Session.antt =====
-- `PrepareWithCatalog` of backend/internal/basispoints/catalog_cache.go: a request prepared against its
-- session's catalog, between the calls of other requests. `Prepare`, which validates the tools, and the
-- JSON of the standard library are parameters.
use airgate_openai.Base.{
  ltb, ◌==◌, if◌then◌else◌, ◌>>=◌, take, Text, codes, Text-discrete, is_empty, byte_length, is_text,
  GoMap, get, ℕ, ◌⊎◌, inl, inr, Bool, true, false, ◌&&◌, ◌||◌, Option, none, some, List, [], ◌∷◌,
  map,
}
use airgate_openai.Base.Json.{
  Json, str, arr, obj, Items, nil, cons, Fields, end, field, field_at, set_field, string_of,
  is_present,
}
use airgate_openai.Basispoints.Catalog.{CatalogCache, snapshot, commit}

-- What is read of a tool of the bridge.
pub record Tool : Type 0 where
  pub namespace : Text
  pub catalog : Json

pub data PrepareError : Type 0 where
  invalid_json : PrepareError
  invalid_catalog : PrepareError
  refused : Text → PrepareError
  catalog_too_large : PrepareError
  changed_concurrently : PrepareError

pub data Prepared (B : Type 0) : Type 0 where
  failed : PrepareError → Prepared B
  prepared : B → Prepared B

abbrev of_prepare : {B : Type 0} → Text ⊎ B → Prepared B
of_prepare (inl e) = failed (refused e)
of_prepare (inr b) = prepared b

-- The order of strings, and `sort.Strings`.
unfoldable pub before : Text → Text → Bool
before [] t = true
before (c ∷ s) [] = false
before (c ∷ s) (d ∷ t) = ltb c d || (c == d && before s t)

unfoldable pub insert_key : Text → List Text → List Text
insert_key k [] = k ∷ []
insert_key k (j ∷ js) = let rest = insert_key k js in if before k j then k ∷ j ∷ js else j ∷ rest

unfoldable pub sort_strings : List Text → List Text
unfolding insert_key
sort_strings [] = []
sort_strings (k ∷ ks) = insert_key k (sort_strings ks)

unfoldable pub declaration : Tool → Json
declaration t =
    if is_empty t.namespace
    then t.catalog
    else obj (
        field (codes "type") (str (codes "namespace")) (
          field (codes "name") (str t.namespace)
            (field (codes "tools") (arr (cons t.catalog nil)) end)))

unfoldable pub declarations_of : GoMap Text Tool → List Text → Items
unfolding declaration
declarations_of tools [] = nil
declarations_of tools (k ∷ ks) =
    let rest = declarations_of tools ks in
    elim (get Text-discrete k tools) [ none ↦ rest | some t ↦ cons (declaration t) rest ]

unfoldable pub declarations : GoMap Text Tool → Json
unfolding declarations_of sort_strings
declarations tools = arr (declarations_of tools (sort_strings (map (λ e. e.0) tools)))

-- A call of another request.
pub data Call : Type 0 where
  snapshots : (now : ℕ) → Text → Call
  commits : (now : ℕ) → Text → ℕ → Text → Call

abbrev pub time : Call → ℕ
time (snapshots now scope) = now
time (commits now scope expected raw) = now

unfoldable pub run_call : Call → CatalogCache → Option CatalogCache
run_call (snapshots now scope) c = snapshot now scope c >>= λ r. some r.0
run_call (commits now scope expected raw) c = commit now scope expected raw c >>= λ r. some r.0

unfoldable pub run_calls : List Call → CatalogCache → Option CatalogCache
unfolding run_call
run_calls [] c = some c
run_calls (k ∷ ks) c = run_call k c >>= λ d. run_calls ks d

-- One of the attempts: the calls of others before it, its snapshot, their calls in between, its commit.
pub record Attempt : Type 0 where
  pub earlier : List Call
  pub snapshot_at : ℕ
  pub between : List Call
  pub commit_at : ℕ

abbrev pub max_attempts : ℕ
max_attempts = 8

module _ {B : Type 0} (prepare : Text → Text ⊎ B) (tools_of : B → GoMap Text Tool)
    (decode : Text → Option Json) (marshal : Json → Text) where
  -- The request with the tools that it inherits.
  unfoldable pub candidate : Fields → Bool → Option Text → Option Json
  candidate source explicit none = some (obj source)
  candidate source explicit (some previous) =
      if explicit then some (obj source) else elim (decode previous) [
        | some (arr inherited) ↦ some (obj (set_field (codes "tools") (arr inherited) source))
        | _ ↦ none
      ]

  abbrev pub catalog_limit : ℕ
  catalog_limit = 1_048_576

  -- What is done between the snapshot and the commit: the body, and the catalog to save.
  unfoldable pub work : Fields → Bool → Option Text → PrepareError ⊎ (B × Text)
  unfolding candidate
  work source explicit previous = elim (candidate source explicit previous) [
    | none ↦ inl invalid_catalog
    | some v ↦ elim (prepare (marshal v)) [
      | inl e ↦ inl (refused e)
      | inr b ↦
          let saved = marshal (declarations (tools_of b)) in
          if ltb catalog_limit (byte_length saved) then inl catalog_too_large else inr (b, saved)
    ]
  ]

  unfoldable pub attempts :
      Text → Fields → Bool → List Attempt → CatalogCache → Option (CatalogCache × Prepared B)
  attempts scope source explicit [] c = some (c, failed changed_concurrently)
  attempts scope source explicit (a ∷ later) c = run_calls a.earlier c >>= λ c.
      snapshot a.snapshot_at scope c >>= λ r. elim (work source explicit r.1) [
        | inl e ↦ some (r.0, failed e)
        | inr (b, saved) ↦ run_calls a.between r.0 >>= λ d.
            commit a.commit_at scope r.2 saved d >>= λ k. elim (k.1 || explicit) [
              | true ↦ some (k.0, prepared b)
              | false ↦ attempts scope source explicit later k.0
            ]
      ]

  unfoldable pub prepare_with_catalog :
      Text → Text → List Attempt → CatalogCache → Option (CatalogCache × Prepared B)
  unfolding attempts
  prepare_with_catalog raw scope schedule c =
      if is_empty scope then some (c, of_prepare (prepare raw)) else elim (decode raw) [
        | some (obj source) ↦
            if is_text (string_of (field_at (codes "tool_choice") source)) (codes "none")
            then some (c, of_prepare (prepare raw))
            else attempts scope source (is_present (field_at (codes "tools") source))
                (take max_attempts schedule) c
        | _ ↦ some (c, failed invalid_json)
      ]

  -- `Reprepare`, of the bridge that holds `tools`: the shared catalog is neither read nor replaced.
  unfoldable pub reprepare : GoMap Text Tool → Text → Prepared B
  reprepare tools raw = elim (decode raw) [
    | some (obj source) ↦
        if is_present (field_at (codes "tools") source)
        then of_prepare (prepare (marshal (obj source)))
        else of_prepare
            (prepare (marshal (obj (set_field (codes "tools") (declarations tools) source))))
    | _ ↦ failed invalid_json
  ]
