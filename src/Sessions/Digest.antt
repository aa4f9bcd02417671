-- ===== src/Sessions/Digest.antt =====
-- session_state.go: `anthropicDigestCache`, where no shared state is used, and the search for the
-- session of a digest chain. The list `ll` with the map `items` from a key to its element is one
-- association list, the front first: a key has one element. `fmt.Sprintf` of the namespace is a
-- parameter.
use airgate_openai.Base.{
  ltb, ◌==◌, if◌then◌else◌, length, Text, codes, Text-discrete, is_empty, has_prefix, is_one_of,
  GoMap, get, delete, ℕ, zero, suc, ◌+◌, ◌-◌, Bool, false, ◌&&◌, ◌||◌, Option, none, some, [], ◌∷◌,
  ◌++◌,
}

pub record DigestEntry : Type 0 where
  pub session_id : Text
  pub updated_at : ℕ

abbrev pub Nodes : Type 0
Nodes = GoMap Text DigestEntry

pub record DigestCache : Type 0 where
  pub nodes : Nodes
  pub max_size : ℕ
  pub ttl : ℕ

abbrev pub get_node : Text → Nodes → Option DigestEntry
get_node = get Text-discrete

abbrev pub remove_node : Text → Nodes → Nodes
remove_node = delete Text-discrete

abbrev pub is_stale : ℕ → ℕ → DigestEntry → Bool
is_stale ttl now e = ltb 0 ttl && ltb ttl (now - e.updated_at)

unfoldable pub load_digest : Text → ℕ → DigestCache → DigestCache × Option DigestEntry
load_digest key now c = elim (get_node key c.nodes) [
  | none ↦ (c, none)
  | some e ↦
      if is_stale c.ttl now e
      then (record c { nodes = remove_node key c.nodes }, none)
      else (record c { nodes = (key, e) ∷ remove_node key c.nodes }, some e)
]

-- `ll.Remove(ll.Back())`, with the key deleted from `items`.
unfoldable pub remove_back : Nodes → Nodes
remove_back [] = []
remove_back (n ∷ []) = []
remove_back (n ∷ m ∷ ns) = n ∷ remove_back (m ∷ ns)

-- The loop `for c.maxSize > 0 && c.ll.Len() > c.maxSize`.
unfoldable pub trim_loop : ℕ → ℕ → Nodes → Nodes
unfolding remove_back
trim_loop zero max_size ns = ns
trim_loop (suc fuel) max_size ns =
    let rest = trim_loop fuel max_size (remove_back ns) in
    if ltb 0 max_size && ltb max_size (length ns) then rest else ns

unfoldable pub store_digest : Text → DigestEntry → DigestCache → DigestCache
unfolding trim_loop
store_digest key entry c = elim (get_node key c.nodes) [
  | some e ↦ record c { nodes = (key, entry) ∷ remove_node key c.nodes }
  | none ↦ record c { nodes = trim_loop (length c.nodes + 1) c.max_size ((key, entry) ∷ c.nodes) }
]

unfoldable pub delete_digest : Text → DigestCache → DigestCache
delete_digest key c = record c { nodes = remove_node key c.nodes }

-- What stands before the last `-`: `chain[:strings.LastIndex(chain, "-")]`.
unfoldable pub before_last : Text → Option Text
before_last [] = none
before_last (c ∷ cs) = elim (before_last cs) [
  | some p ↦ some (c ∷ p)
  | none ↦ if c == 45 then some [] else none
]

abbrev pub Found : Type 0
Found = Option (Text × Text)

-- The loop of `findAnthropicDigestSession`: the session and the chain that matched.
unfoldable pub find_loop : ℕ → Text → Text → ℕ → DigestCache → DigestCache × Found
unfolding load_digest before_last
find_loop zero ns chain now c = (c, none)
find_loop (suc fuel) ns chain now c =
    let l = load_digest (ns ++ chain) now c in
    elim l.1 [
      | some e ↦ (l.0, some (e.session_id, chain))
      | none ↦ elim (before_last chain) [
        | none ↦ (l.0, none)
        | some p ↦ find_loop fuel ns p now l.0
      ]
    ]

abbrev pub is_anonymous : Option Text → Bool
is_anonymous none = false
is_anonymous (some scope) = has_prefix scope (codes "anonymous:")

module _ (digest_namespace : ℕ → Option Text → Text) where
  unfoldable pub save_digest_session :
      ℕ → Text → Text → Text → Option Text → ℕ → DigestCache → DigestCache
  unfolding store_digest delete_digest
  save_digest_session account_id chain session_id old_chain scope now c =
      let ns = digest_namespace account_id scope in
      let stored =
        store_digest (ns ++ chain) (record { session_id = session_id; updated_at = now }) c in
      if is_anonymous scope || account_id == 0 || is_empty chain || is_empty session_id
      then c
      else if is_empty old_chain || is_one_of old_chain (chain ∷ [])
      then stored
      else delete_digest (ns ++ old_chain) stored

  unfoldable pub find_digest_session :
      ℕ → Text → Option Text → ℕ → DigestCache → DigestCache × Found
  unfolding find_loop
  find_digest_session account_id chain scope now c =
      if is_anonymous scope || account_id == 0 || is_empty chain
      then (c, none)
      else find_loop (length chain + 1) (digest_namespace account_id scope) chain now c
