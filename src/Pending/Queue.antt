-- ===== src/Pending/Queue.antt =====
-- persistence_pending.go. A call holds the lock, so calls are steps one after the other; a key is of
-- any type that can be compared. Sizes are not negative. Whether the snapshot itself was taken over by
-- `save`, and whether `sync.Map.CompareAndDelete` found the value still there, comes from outside.
use mathlib.Core.HLevel.{Discrete}
use airgate_openai.Base.{
  ltb, leb, if◌then◌else◌, length, GoMap, get, put, delete, ℕ, ◌+◌, ◌-◌, Bool, true, false, not,
  ◌&&◌, ◌||◌, none, some,
}

abbrev pub max_pending_snapshots : ℕ
max_pending_snapshots = 4096

abbrev pub max_pending_snapshot_bytes : ℕ
max_pending_snapshot_bytes = 33_554_432

abbrev pub max_snapshot_bytes : ℕ
max_snapshot_bytes = 262_144

pub record PendingState (K : Type 0) : Type 0 where
  pub closing : Bool
  pub pending_sizes : GoMap K ℕ
  pub pending_bytes : ℕ
  pub dropped : ℕ

module _ {K : Type 0} (dec : Discrete K) where
  -- `old, exists := s.pendingSizes[key]`
  unfoldable pub size_of : K → GoMap K ℕ → ℕ
  size_of key sizes = elim (get dec key sizes) [ none ↦ 0 | some n ↦ n ]

  unfoldable pub has_size : K → GoMap K ℕ → Bool
  has_size key sizes = elim (get dec key sizes) [ none ↦ false | some n ↦ true ]

  unfoldable pub is_full : K → ℕ → PendingState K → Bool
  unfolding size_of has_size
  is_full key size s =
      ltb max_snapshot_bytes size
      || ltb max_pending_snapshot_bytes (s.pending_bytes - size_of key s.pending_sizes + size)
      || (not (has_size key s.pending_sizes) && leb max_pending_snapshots (length s.pending_sizes))

  unfoldable pub save_pending : K → ℕ → Bool → PendingState K → PendingState K × Bool
  unfolding is_full
  save_pending key size saved s =
      if s.closing
      then (s, false)
      else if is_full key size s
      then (record s { dropped = s.dropped + 1 }, false)
      else if not saved
      then (s, false)
      else (
        record s {
          pending_sizes = put dec key size s.pending_sizes;
          pending_bytes = s.pending_bytes + size - size_of key s.pending_sizes;
        },
        true,
      )

  unfoldable pub remove_pending : K → Bool → PendingState K → PendingState K
  unfolding size_of
  remove_pending key deleted s =
      if deleted
      then record s {
        pending_bytes = s.pending_bytes - size_of key s.pending_sizes;
        pending_sizes = delete dec key s.pending_sizes;
      }
      else s

  -- `storeNewerPending`, with the compare-and-swap that ends its loop: the values with their times.
  unfoldable pub store_newer_pending : {V : Type 0} → (V → ℕ) → K → V → GoMap K V → GoMap K V × Bool
  store_newer_pending timestamp key value pending = elim (get dec key pending) [
    | none ↦ (put dec key value pending, true)
    | some previous ↦
        if ltb (timestamp value) (timestamp previous)
        then (pending, false)
        else (put dec key value pending, true)
  ]
