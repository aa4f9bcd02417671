-- ===== src/Basispoints/Replay.antt =====
-- backend/internal/basispoints/tools.go: the cache of native tool identities. A call holds the lock, so
-- calls are steps one after the other, each at its time. JSON is read and written by the standard
-- library, and an object's fingerprint is a hash: these are parameters.
use airgate_openai.Base.{
  ltb, if◌then◌else◌, ◌>>=◌, Text, codes, Text-discrete, is_empty, byte_length, trim_space, is_text,
  get, ℕ, ◌+◌, ite, Bool, true, false, not, ◌&&◌, ◌||◌, Option, none, some, [], ◌∷◌, ◌++◌,
}
use airgate_openai.Base.Json.{Json, str, obj, Fields, end, field, field_at, string_of}
use airgate_openai.Basispoints.Elements.{
  Elements, element_at, remove_key, expire, touch, push_back, evict, enough,
}

abbrev pub replay_cache_max_entries : ℕ
replay_cache_max_entries = 1024

abbrev pub replay_cache_max_bytes : ℕ
replay_cache_max_bytes = 16_777_216

abbrev pub replay_cache_entry_bytes : ℕ
replay_cache_entry_bytes = 1_048_576

pub record Replay : Type 0 where
  pub raw : Text
  pub call_fingerprint : Text

abbrev pub ReplayCache : Type 0
ReplayCache = Elements Replay

-- `scope + "\x00" + id`
abbrev pub replay_key : Text → Text → Text
replay_key scope id = scope ++ 0 ∷ id

-- `raw` is what `json.Marshal` gives, and `signature` the fingerprint of the client's call, if there is one.
unfoldable pub replay_weight : Text → Text → Text → ℕ
replay_weight key raw signature = byte_length raw + byte_length key + byte_length signature + 128

unfoldable pub is_cacheable : Text → Text → Text → Bool
unfolding replay_weight
is_cacheable key raw signature =
    not (ltb replay_cache_entry_bytes (byte_length raw))
    && not (ltb replay_cache_max_bytes (replay_weight key raw signature))

-- What follows the removal of the old entry.
unfoldable pub store_replay : ℕ → Text → Option Text → Text → ReplayCache → Option ReplayCache
store_replay now key none signature s = some s
store_replay now key (some raw) signature s =
    let t =
      push_back
        (record {
          key = key;
          weight = replay_weight key raw signature;
          used = now;
          payload = record { raw = raw; call_fingerprint = signature };
        })
        s in
    if is_cacheable key raw signature
    then evict replay_cache_max_entries replay_cache_max_bytes (enough t) t
    else some s

unfoldable pub replay_put : ℕ → Text → Text → Option Text → Text → ReplayCache → Option ReplayCache
replay_put now scope id raw signature s =
    let key = replay_key scope id in
    if is_empty id
    then some s
    else expire (enough s) now s >>= λ t. store_replay now key raw signature (remove_key key t)

-- Whether the cached call is the client's, where that is asked for.
abbrev pub matches : Option Text → Replay → Bool
matches none e = true
matches (some signature) e = ite (Text-discrete e.call_fingerprint signature) true false

-- `getMatching`, up to the reading of the JSON, on what `expireLocked` leaves.
unfoldable pub find_replay : ℕ → Text → Option Text → ReplayCache → ReplayCache × Option Text
find_replay now key signature s = elim (get Text-discrete key s.entries) [
  | none ↦ (s, none)
  | some a ↦ elim (element_at a s.order) [
    | none ↦ (s, none)
    | some e ↦
        if matches signature e.payload then (touch now a s, some e.payload.raw) else (s, none)
  ]
]

unfoldable pub get_matching :
    ℕ → Text → Text → Option Text → ReplayCache → Option (ReplayCache × Option Text)
get_matching now scope id signature s =
    expire (enough s) now s >>= λ t. some (find_replay now (replay_key scope id) signature t)

-- `get`
abbrev pub replay_get : ℕ → Text → Text → ReplayCache → Option (ReplayCache × Option Text)
replay_get now scope id s = get_matching now scope id none s

abbrev is_trimmed : Text → Bool
is_trimmed s = is_text (trim_space s) s

module _ (decode : Text → Option Json) (fingerprint : Json → Text) where
  -- The namespace, if it is one.
  unfoldable pub namespace_of : Option Json → Option Text
  namespace_of none = some []
  namespace_of (some (str s)) = if is_trimmed s then some s else none
  namespace_of (some v) = none

  -- The arguments of a call: an object, or a text that holds one.
  unfoldable pub arguments_of : Option Json → Option Json
  arguments_of (some (str s)) = elim (decode s) [ some (obj fs) ↦ some (obj fs) | _ ↦ none ]
  arguments_of (some (obj fs)) = some (obj fs)
  arguments_of _ = none

  unfoldable pub payload_of : Text → Fields → Option (Text × Json)
  payload_of kind item =
      if is_text kind (codes "function_call")
      then (elim (arguments_of (field_at (codes "arguments") item)) [
        | none ↦ none
        | some v ↦ some (codes "arguments", v)
      ])
      else if is_text kind (codes "custom_tool_call")
      then (elim (field_at (codes "input") item) [
        | some (str s) ↦ some (codes "input", str s)
        | _ ↦ none
      ])
      else none

  unfoldable pub history_call_fingerprint : Fields → Text
  history_call_fingerprint item =
      let kind = string_of (field_at (codes "type") item) in
      let id = string_of (field_at (codes "call_id") item) in
      let name = string_of (field_at (codes "name") item) in
      if is_empty id || is_empty name || not (is_trimmed id) || not (is_trimmed name)
      then []
      else elim (namespace_of (field_at (codes "namespace") item)) [
        | none ↦ []
        | some namespace ↦ elim (payload_of kind item) [
          | none ↦ []
          | some (k, v) ↦ fingerprint (
              obj (
                field (codes "type") (str kind) (
                  field (codes "call_id") (str id) (
                    field (codes "name") (str name)
                      (field (codes "namespace") (str namespace) (field k v end))))))
        ]
      ]

  unfoldable pub get_for_call :
      ℕ → Text → Text → Fields → ReplayCache → Option (ReplayCache × Option Text)
  get_for_call now scope id client_call s =
      let signature = history_call_fingerprint client_call in
      if is_empty signature then some (s, none) else get_matching now scope id (some signature) s
