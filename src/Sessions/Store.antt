-- ===== src/Sessions/Store.antt =====
-- session_state.go: `sessionStateMemoryStore`, where no shared state is used. The entries' expiries
-- stand in a heap of `container/heap`, by the last activity of the state that the entry holds; what the
-- code takes from it is the key of its first, a parameter. The clock is read once in a call, `now`.
use airgate_openai.Base.{
  ltb, leb, ◌==◌, if◌then◌else◌, length, Text, Text-discrete, is_empty, GoMap, get, put, delete, ℕ,
  zero, suc, ◌+◌, ◌-◌, ◌*◌, ◌/◌, Bool, false, not, ◌&&◌, ◌||◌, Option, none, some,
}
use airgate_openai.Sessions.State.{SessionState, fresh_state, last_activity}

pub record MemoryStore : Type 0 where
  pub items : GoMap Text SessionState
  pub ttl : ℕ
  pub max_entries : ℕ

abbrev pub cache_cleanup_budget : ℕ
cache_cleanup_budget = 32

-- `t.Truncate(time.Microsecond)`
abbrev pub truncate : ℕ → ℕ
truncate t = t / 1000 * 1000

unfoldable pub is_expired : ℕ → SessionState → ℕ → Bool
is_expired ttl s now =
    if ttl == 0 then false else not (last_activity s == 0) && ltb ttl (now - last_activity s)

abbrev pub get_state : Text → GoMap Text SessionState → Option SessionState
get_state = get Text-discrete

abbrev pub put_state : Text → SessionState → GoMap Text SessionState → GoMap Text SessionState
put_state = put Text-discrete

abbrev pub delete_state : Text → GoMap Text SessionState → GoMap Text SessionState
delete_state = delete Text-discrete

-- The state as `Store` keeps it.
abbrev pub completed : Text → ℕ → SessionState → SessionState
completed key now state = record state {
  session_key = if is_empty state.session_key then key else state.session_key;
  last_seen_at = if state.last_seen_at == 0 then now else state.last_seen_at;
}

abbrev pub is_newer : Option SessionState → SessionState → Bool
is_newer none state = false
is_newer (some previous) state = ltb (last_activity state) (last_activity previous)

-- The state that `Update` works on.
unfoldable pub current_state : ℕ → ℕ → Text → Option SessionState → SessionState
unfolding is_expired
current_state ttl now key none = fresh_state key
current_state ttl now key (some s) = if is_expired ttl s now then fresh_state key else s

-- The time of an update is past that of the update before.
abbrev pub update_time : ℕ → SessionState → ℕ
update_time now s = if ltb s.last_updated_at now then now else truncate (s.last_updated_at + 1000)

unfoldable pub updated : (SessionState → SessionState) → ℕ → SessionState → SessionState
updated f now s =
    let t = update_time now s in record (f (record s { last_seen_at = t })) { last_updated_at = t }

module _ (oldest : GoMap Text SessionState → Option Text) where
  -- The loop of `cleanupExpiredLocked`, with the budget that is left.
  unfoldable pub cleanup_loop : ℕ → ℕ → ℕ → GoMap Text SessionState → GoMap Text SessionState
  cleanup_loop zero ttl now items = items
  cleanup_loop (suc budget) ttl now items = elim (oldest items) [
    | none ↦ items
    | some key ↦ elim (get_state key items) [
      | none ↦ items
      | some s ↦
          if leb (now - last_activity s) ttl
          then items
          else cleanup_loop budget ttl now (delete_state key items)
    ]
  ]

  unfoldable pub cleanup_expired : ℕ → ℕ → GoMap Text SessionState → GoMap Text SessionState
  unfolding cleanup_loop
  cleanup_expired ttl now items =
      if ttl == 0 then items else cleanup_loop cache_cleanup_budget ttl now items

  unfoldable pub delete_oldest : GoMap Text SessionState → GoMap Text SessionState
  delete_oldest items = elim (oldest items) [ none ↦ items | some key ↦ delete_state key items ]

  -- `if _, exists := s.items[key]; !exists && ... { s.deleteOldestLocked(now) }`
  unfoldable pub make_space : ℕ → Text → GoMap Text SessionState → GoMap Text SessionState
  unfolding delete_oldest
  make_space max_entries key items = elim (get_state key items) [
    | some s ↦ items
    | none ↦
        if ltb 0 max_entries && leb max_entries (length items) then delete_oldest items else items
  ]

  unfoldable pub load : Text → ℕ → MemoryStore → MemoryStore × Option SessionState
  unfolding cleanup_expired is_expired
  load key now s =
      let items = cleanup_expired s.ttl now s.items in
      if is_empty key then (s, none) else elim (get_state key items) [
        | none ↦ (record s { items = items }, none)
        | some state ↦
            if is_expired s.ttl state now
            then (record s { items = delete_state key items }, none)
            else (record s { items = items }, some state)
      ]

  unfoldable pub store : Text → SessionState → ℕ → MemoryStore → MemoryStore
  unfolding cleanup_expired is_expired make_space
  store key state now s =
      let cloned = completed key now state in
      let items = cleanup_expired s.ttl now s.items in
      if is_empty key || is_expired s.ttl cloned now
      then s
      else if is_newer (get_state key items) cloned
      then record s { items = items }
      else record s { items = put_state key cloned (make_space s.max_entries key items) }

  unfoldable pub update :
      Text → (SessionState → SessionState) → ℕ → MemoryStore → MemoryStore × SessionState
  unfolding cleanup_expired current_state updated make_space
  update key f clock s =
      let now = truncate clock in
      let items = cleanup_expired s.ttl now s.items in
      let state = updated f now (current_state s.ttl now key (get_state key items)) in
      (record s { items = put_state key state (make_space s.max_entries key items) }, state)

unfoldable pub delete_entry : Text → MemoryStore → MemoryStore
delete_entry key s = if is_empty key then s else record s { items = delete_state key s.items }
