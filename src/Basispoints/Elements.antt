-- ===== src/Basispoints/Elements.antt =====
-- What the two caches of backend/internal/basispoints (catalog_cache.go, tools.go) have in common: a list
-- of elements in the order of their use (`container/list`), a map from keys to elements, and the sum of
-- their bytes. An element is a pointer: it is named by an address, which is given once.
use airgate_openai.Base.{
  ltb, ◌==◌, if◌then◌else◌, length, Text, Text-discrete, GoMap, get, put, delete, ℕ, zero, suc, ◌+◌,
  ◌-◌, ◌||◌, Option, none, some, List, [], ◌∷◌, ◌++◌,
}

pub record Entry (P : Type 0) : Type 0 where
  pub key : Text
  pub weight : ℕ
  -- `touched`, `used`
  pub used : ℕ
  pub payload : P

abbrev pub Order : Type 0 → Type 0
Order P = List (ℕ × Entry P)

pub record Elements (P : Type 0) : Type 0 where
  pub entries : GoMap Text ℕ
  pub order : Order P
  pub bytes : ℕ
  pub next : ℕ

-- Two hours, in nanoseconds.
abbrev pub replay_cache_idle_ttl : ℕ
replay_cache_idle_ttl = 7_200_000_000_000

module _ {P : Type 0} where
  abbrev pub empty_elements : Elements P
  empty_elements = record { entries = []; order = []; bytes = 0; next = 0 }

  -- `e.Value`, and `order.Remove(e)`
  unfoldable pub element_at : ℕ → Order P → Option (Entry P)
  element_at a [] = none
  element_at a ((b, e) ∷ o) = if a == b then some e else element_at a o

  unfoldable pub remove_at : ℕ → Order P → Order P
  remove_at a [] = []
  remove_at a ((b, e) ∷ o) = if a == b then o else (b, e) ∷ remove_at a o

  -- `remove`, `removeLocked`
  unfoldable pub remove : ℕ → Elements P → Elements P
  remove a s = elim (element_at a s.order) [
    | none ↦ s
    | some e ↦ record s {
      entries = delete Text-discrete e.key s.entries;
      bytes = s.bytes - e.weight;
      order = remove_at a s.order;
    }
  ]

  -- `if old := entries[key]; old != nil { remove(old) }`
  unfoldable pub remove_key : Text → Elements P → Elements P
  remove_key key s = elim (get Text-discrete key s.entries) [ none ↦ s | some a ↦ remove a s ]

  -- `prune`, `expireLocked`: `none` is a loop that did not end within the fuel.
  unfoldable pub expire : ℕ → ℕ → Elements P → Option (Elements P)
  expire zero now s = none
  expire (suc n) now s = elim s.order [
    | [] ↦ some s
    | x ∷ o ↦
        if ltb (now - x.1.used) replay_cache_idle_ttl then some s else expire n now (remove x.0 s)
  ]

  -- `e.Value = …` and `order.MoveToBack(e)`, with the new time.
  unfoldable pub touch : ℕ → ℕ → Elements P → Elements P
  touch now a s = elim (element_at a s.order) [
    | none ↦ s
    | some e ↦ record s { order = remove_at a s.order ++ (a, record e { used = now }) ∷ [] }
  ]

  -- `entries[key] = order.PushBack(entry)`, and the bytes.
  unfoldable pub push_back : Entry P → Elements P → Elements P
  push_back e s = record {
    entries = put Text-discrete e.key s.next s.entries;
    order = s.order ++ (s.next, e) ∷ [];
    bytes = s.bytes + e.weight;
    next = suc s.next;
  }

  -- The loop that evicts from the front; `none` is a front of an empty list, or a lack of fuel.
  unfoldable pub evict : (max_entries max_bytes : ℕ) → ℕ → Elements P → Option (Elements P)
  evict max_entries max_bytes zero s = none
  evict max_entries max_bytes (suc n) s =
      if ltb max_entries (length s.entries) || ltb max_bytes s.bytes
      then (elim s.order [ [] ↦ none | x ∷ o ↦ evict max_entries max_bytes n (remove x.0 s) ])
      else some s

  -- The fuel that both loops are given: one more than there are elements.
  abbrev pub enough : Elements P → ℕ
  enough s = suc (length s.order)
