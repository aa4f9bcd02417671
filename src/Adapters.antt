-- ===== src/Adapters.antt =====
-- The theorems at concrete inputs: the caches of the Basispoints adapter and its plans.
use airgate_openai.Base.{
  ltb, leb, ◌==◌, if◌then◌else◌, ◌>>=◌, ◌>>◌, ltb→lt, lt→ltb, ltb→le, le→ltb, leb→le, leb→lt,
  ==_iff, tests, Bool-cases, Option-cases, Sum-cases, if_true, if_false, length, get_elem?, take,
  drop, All, any, length-append, length-take, All-append, All-append_left, All-append_right,
  All-imp, List-cases, Text, codes, Text-discrete, is_empty, byte_length, take_bytes, has_prefix,
  contains, contains_any, is_one_of, is_one_of-append, join_space, is_blank, is_text, GoMap, get,
  put, delete, Distinct, get-put, get-delete, get-put_self, get-put_ne, get-delete_self,
  get-delete_ne, put-Distinct, delete-Distinct, length-put_new, length-put_old, delete_absent,
  length-delete, ℕ, zero, suc, ◌+◌, ◌-◌, ◌*◌, ◌/◌, ◌%◌, ◌^◌, ◌≤◌, ◌<◌, min, max, ◌≡◌, refl, sym, ap,
  ◌∙◌, ◌≢◌, ◌↔◌, ◌⊎◌, inl, inr, ite, dite, if_pos, if_neg, Bool, true, false, not, ◌&&◌, ◌||◌,
  Option, none, some, List, [], ◌∷◌, ◌++◌, map, arith, dec_lt, dec_le,
}
use airgate_openai.Base.Int.{ℤ}
use airgate_openai.Base.Json.{Json, str, arr, obj, nil, cons, Fields, end, field, field_at}
use airgate_openai.Basispoints.Elements.{Elements, empty_elements, expire, enough}
use airgate_openai.Basispoints.Sound.{empty_elements-Sound}
use airgate_openai.Basispoints.Replay.{
  ReplayCache, replay_put, replay_get, get_matching, replay_key,
}
use airgate_openai.Basispoints.Replays.{ReplaySound, replay_put-Sound}
use airgate_openai.Basispoints.Replays.Lookups.{Looked, get_matching-Looked, replay_get-replay_put}
use airgate_openai.Basispoints.Catalog.{CatalogCache, empty_catalog_cache, commit, current_version}
use airgate_openai.Basispoints.Catalogs.{CatalogSound, commit-Sound}
use airgate_openai.Basispoints.Catalogs.Versions.{Holds, commit_overtaken}
use airgate_openai.Basispoints.Session.{
  Tool, Prepared, failed, changed_concurrently, commits, Attempt, prepare_with_catalog,
}
use airgate_openai.Basispoints.Sessions.Answers.{
  prepare_with_catalog-ends, prepare_with_catalog-quiet,
}
use airgate_openai.Basispoints.Plan.{PlanTool}

abbrev s1 : Text
s1 = codes "account/session"

abbrev call_1 : Text
call_1 = codes "call_1"

abbrev native_call : Text
native_call = codes "{}"

no_replays-ReplaySound : ReplaySound 10 empty_elements
no_replays-ReplaySound = empty_elements-Sound 1024 16_777_216 10

replay_put-Sound_example :
    (r : ReplayCache) × (replay_put 11 s1 call_1 none [] empty_elements ≡ some r) × ReplaySound 11 r
replay_put-Sound_example =
    replay_put-Sound 10 11 s1 call_1 none [] empty_elements (omega arith) no_replays-ReplaySound

get_matching-Looked_example :
    (r : ReplayCache × Option Text) × (get_matching 11 s1 call_1 (some (codes "f")) empty_elements
      ≡ some r)
    × Looked 11 (replay_key s1 call_1) (some (codes "f")) empty_elements r
get_matching-Looked_example =
    get_matching-Looked 10 11 s1 call_1 (some (codes "f")) empty_elements (omega arith)
      no_replays-ReplaySound

replay_get-replay_put_example :
    (r : ReplayCache) × (replay_put 11 s1 call_1 (some native_call) (codes "f") empty_elements
      ≡ some r)
    × ((q : ReplayCache) × (replay_get 4_000_000_000_000 s1 call_1 r ≡ some (q, some native_call)))
unfolding airgate_openai.Basispoints.Replay.is_cacheable byte_length
replay_get-replay_put_example =
    replay_get-replay_put 10 11 4_000_000_000_000 s1 call_1 native_call (codes "f") empty_elements
      (omega arith) (omega arith) (omega arith) no_replays-ReplaySound refl refl

no_catalogs-CatalogSound : CatalogSound 10 empty_catalog_cache.elements
no_catalogs-CatalogSound = empty_elements-Sound 512 16_777_216 10

no_catalogs-Holds : Holds 10 s1 0 empty_catalog_cache.elements
unfolding Holds get
no_catalogs-Holds = inl (refl, refl)

commit-Sound_example :
    (s : Elements _) × (expire (enough empty_catalog_cache.elements) 11 empty_catalog_cache.elements
      ≡ some s)
    × ((r : CatalogCache) × (ok : Bool) × (commit 11 s1 0 (codes "[]") empty_catalog_cache
          ≡ some (r, ok))
        × CatalogSound 11 r.elements
        × ((ok ≡ true) ↔ (current_version s1 s ≡ 0)))
commit-Sound_example =
    commit-Sound 10 11 s1 0 (codes "[]") empty_catalog_cache (omega arith) no_catalogs-CatalogSound

commit_overtaken_example :
    (r : CatalogCache) × (commit 11 s1 0 (codes "[]") empty_catalog_cache ≡ some (r, true))
    × ((q : CatalogCache) × (commit 12 s1 0 (codes "[1]") r ≡ some (q, false)))
unfolding byte_length
commit_overtaken_example =
    commit_overtaken 10 11 12 0 0 s1 (codes "[]") (codes "[1]") empty_catalog_cache (omega arith)
      (omega arith) (omega arith) (omega arith) no_catalogs-CatalogSound no_catalogs-Holds
      (omega arith) (omega arith) (omega arith)

abbrev request : Fields
request = field (codes "model") (str (codes "gpt")) end

abbrev as_request : Text → Option Json
as_request raw = some (obj request)

abbrev as_empty : Json → Text
as_empty v = codes "[]"

abbrev body_of : Text → Text ⊎ Text
body_of raw = inr raw

abbrev no_tools : Text → GoMap Text Tool
no_tools b = []

abbrev busy : Attempt
busy = record {
  earlier = [];
  snapshot_at = 20;
  between = commits 21 s1 0 (codes "[]") ∷ [];
  commit_at = 22;
}

abbrev calm : Attempt
calm = record { earlier = []; snapshot_at = 30; between = []; commit_at = 31 }

prepare_with_catalog-ends_example :
    (q : CatalogCache × Prepared Text) × (prepare_with_catalog body_of no_tools as_request as_empty
        (codes "{}")
        s1
        (busy ∷ calm ∷ [])
        empty_catalog_cache
      ≡ some q)
    × ((u : ℕ) × CatalogSound u q.0.elements)
unfolding is_one_of Text-discrete field_at
prepare_with_catalog-ends_example =
    prepare_with_catalog-ends body_of no_tools as_request as_empty 10 (codes "{}") s1 request
      (busy ∷ calm ∷ []) empty_catalog_cache refl refl refl
      (omega arith, (omega arith, omega arith), (omega arith, omega arith, tt))
      no_catalogs-CatalogSound

prepare_with_catalog-quiet_example :
    (q : CatalogCache × Prepared Text) × (prepare_with_catalog body_of no_tools as_request as_empty
        (codes "{}")
        s1
        (busy ∷ calm ∷ [])
        empty_catalog_cache
      ≡ some q)
    × (q.1 ≢ failed changed_concurrently)
unfolding is_one_of Text-discrete field_at
prepare_with_catalog-quiet_example =
    prepare_with_catalog-quiet body_of no_tools as_request as_empty 10 (codes "{}") s1 request
      (busy ∷ calm ∷ []) empty_catalog_cache refl refl refl
      (omega arith, (omega arith, omega arith), (omega arith, omega arith, tt))
      no_catalogs-CatalogSound (inl (inr (inl (refl, omega arith, omega arith))))

abbrev plan_parameters : Fields
plan_parameters =
    field (codes "type") (str (codes "object"))
      (field (codes "properties") (obj (field (codes "plan") (obj end) end)) end)

abbrev plan_tools : GoMap Text PlanTool
plan_tools =
    (
      codes "update_plan",
      record {
        name = codes "update_plan";
        namespace = [];
        kind = codes "function";
        parameters = plan_parameters;
      },
    )
    ∷ []

abbrev native_step : Json
native_step =
    obj
      (field (codes "title") (str (codes "Read")) (field (codes "status") (str (codes "done")) end))

abbrev native_plan : Fields
native_plan = field (codes "type") (str (codes "function_call")) (
    field (codes "name") (str (codes "update_plan")) (
      field (codes "call_id") (str (codes "c1")) (
        field (codes "arguments") (obj (field (codes "plan") (arr (cons native_step nil)) end))
          end)))

abbrev no_int : Text → Option ℤ
no_int s = none

abbrev as_is : Text → Text
as_is s = s

abbrev client_call : Fields
client_call = field (codes "type") (str (codes "function_call")) (
    field (codes "id") (str (codes "fc_c1")) (
      field (codes "call_id") (str (codes "c1")) (
        field (codes "name") (str (codes "update_plan")) (
          field (codes "arguments") (str (codes "[]"))
            (field (codes "status") (str (codes "completed")) end)))))
