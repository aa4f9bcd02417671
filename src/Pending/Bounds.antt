-- ===== src/Pending/Bounds.antt =====
-- persistence_pending.go: the bytes that are counted are those of the snapshots that wait, and the
-- limits hold.
use mathlib.Core.HLevel.{Discrete}
use mathlib.Core.Path.{subst}
use airgate_openai.Base.{
  if◌then◌else◌, Bool-cases, Option-cases, length, GoMap, get, put, delete, Distinct, get-put_self,
  put-Distinct, delete-Distinct, length-put_new, length-put_old, delete_absent, ℕ, ◌+◌, ◌-◌, ◌≤◌,
  ◌<◌, ◌≡◌, sym, ap, ◌∙◌, ◌⊎◌, inl, inr, Bool, true, false, some, [], ◌∷◌, arith, dec_lt,
}
use airgate_openai.Pending.Queue.{
  max_pending_snapshots, max_pending_snapshot_bytes, PendingState, size_of, has_size, is_full,
  save_pending, remove_pending, store_newer_pending,
}

unfoldable pub total : {K : Type 0} → GoMap K ℕ → ℕ
total [] = 0
total ((k, n) ∷ m) = n + total m

module _ {K : Type 0} (dec : Discrete K) where
  total-put :
      (k : K) (n : ℕ) (m : GoMap K ℕ) → total (put dec k n m) + size_of dec k m ≡ total m + n
  unfolding put size_of get total
  total-put k n [] = omega arith
  total-put k n ((j, i) ∷ m) = ground (arith, total-put k n m)

  total-delete :
      (k : K) (m : GoMap K ℕ) → Distinct dec m → total (delete dec k m) + size_of dec k m ≡ total m
  unfolding delete size_of get total
  total-delete k [] d = omega arith
  total-delete k ((j, i) ∷ m) d = ground (arith, total-delete k m, delete_absent dec k m)

  -- What the queue keeps to.
  pub record Bounded (s : PendingState K) : Type 0 where
    pub distinct : Distinct dec s.pending_sizes
    pub bytes : s.pending_bytes ≡ total s.pending_sizes
    pub within_bytes : s.pending_bytes ≤ max_pending_snapshot_bytes
    pub within_count : length s.pending_sizes ≤ max_pending_snapshots

  length-delete_le : (k : K) (m : GoMap K ℕ) → length (delete dec k m) ≤ length m
  unfolding delete
  length-delete_le k [] = omega arith
  length-delete_le k ((j, i) ∷ m) = ground (arith, length-delete_le k m)

  length-put :
      (k : K) (n : ℕ) (m : GoMap K ℕ)
      → length (put dec k n m) ≤ (if has_size dec k m then length m else length m + 1)
  unfolding has_size
  length-put k n m = elim (Option-cases (get dec k m)) [
    | inl e ↦ let h = length-put_new dec k n m e in ground arith
    | inr (o, e) ↦ let h = length-put_old dec k n o m e in ground arith
  ]

  saved-Bounded :
      (key : K) (size : ℕ) (s : PendingState K)
      → Bounded s
      → is_full dec key size s ≡ false
      → Bounded (record s {
        pending_sizes = put dec key size s.pending_sizes;
        pending_bytes = s.pending_bytes + size - size_of dec key s.pending_sizes;
      })
  unfolding is_full
  saved-Bounded key size s b f = record {
    distinct = put-Distinct dec key size s.pending_sizes b.distinct;
    bytes = let h = total-put key size s.pending_sizes in let e = b.bytes in omega arith;
    within_bytes = ground arith;
    within_count =
        let h = length-put key size s.pending_sizes in let c = b.within_count in ground arith;
  }

  -- The three ends of `savePending`.
  saved_cases :
      (key : K) (size : ℕ) (saved : Bool) (s : PendingState K)
      → ((save_pending dec key size saved s).0 ≡ s)
        ⊎ (((save_pending dec key size saved s).0 ≡ record s { dropped = s.dropped + 1 })
            ⊎ ((is_full dec key size s ≡ false)
                × ((save_pending dec key size saved s).0 ≡ record s {
                  pending_sizes = put dec key size s.pending_sizes;
                  pending_bytes = s.pending_bytes + size - size_of dec key s.pending_sizes;
                })))
  unfolding save_pending
  saved_cases key size saved s = elim (Bool-cases s.closing) [
    | inl c ↦ inl (ground arith)
    | inr c ↦ elim (Bool-cases (is_full dec key size s)) [
      | inl f ↦ inr (inl (ground arith))
      | inr f ↦ elim (Bool-cases saved) [
        | inl v ↦ inr (inr (f, ground arith))
        | inr v ↦ inl (ground arith)
      ]
    ]
  ]

  -- Saving a snapshot, taken over or refused, keeps the count of the bytes the sum of the sizes, and
  -- the limits of the bytes and of the number of snapshots.
  pub save_pending-Bounded :
      (key : K) (size : ℕ) (saved : Bool) (s : PendingState K)
      → Bounded s
      → Bounded (save_pending dec key size saved s).0
  save_pending-Bounded key size saved s b = elim (saved_cases key size saved s) [
    | inl e ↦ subst Bounded (sym e) b
    | inr (inl e) ↦ subst Bounded (sym e) (record {
      distinct = b.distinct;
      bytes = b.bytes;
      within_bytes = b.within_bytes;
      within_count = b.within_count;
    })
    | inr (inr (f, e)) ↦ subst Bounded (sym e) (saved-Bounded key size s b f)
  ]

  -- Removing a snapshot that was written, or leaving one that was replaced meanwhile, keeps them too.
  pub remove_pending-Bounded :
      (key : K) (deleted : Bool) (s : PendingState K)
      → Bounded s
      → Bounded (remove_pending dec key deleted s)
  unfolding remove_pending
  remove_pending-Bounded key false s b = b
  remove_pending-Bounded key true s b = record {
    distinct = delete-Distinct dec key s.pending_sizes b.distinct;
    bytes = let h = total-delete key s.pending_sizes b.distinct in let e = b.bytes in omega arith;
    within_bytes = let e = b.within_bytes in omega arith;
    within_count =
        let e = b.within_count in let h = length-delete_le key s.pending_sizes in omega arith;
  }

  module _ {V : Type 0} (timestamp : V → ℕ) (key : K) (value : V) where
    left_newer :
        (w : V) (pending : GoMap K V)
        → get dec key pending ≡ some w
        → timestamp value < timestamp w
        → store_newer_pending dec timestamp key value pending ≡ (pending, false)
    unfolding store_newer_pending
    left_newer w pending e l = ground arith

    put_older :
        (w : V) (pending : GoMap K V)
        → get dec key pending ≡ some w
        → timestamp w ≤ timestamp value
        → store_newer_pending dec timestamp key value pending ≡ (put dec key value pending, true)
    unfolding store_newer_pending
    put_older w pending e l = ground arith

  -- Where a value waits for the key, it is not replaced by an older one: after the call the key has a
  -- value whose time is neither before that of the value given nor before that of the one that waited.
  pub store_newer_pending-newest :
      {V : Type 0}
      → (timestamp : V → ℕ) (key : K) (value w : V) (pending : GoMap K V)
      → get dec key pending ≡ some w
      → (v : V) × (get dec key (store_newer_pending dec timestamp key value pending).0 ≡ some v)
        × (timestamp value ≤ timestamp v)
        × (timestamp w ≤ timestamp v)
  store_newer_pending-newest timestamp key value w pending e =
      elim (dec_lt (timestamp value) (timestamp w)) [
        | yes l ↦ (
          w,
          ap (get dec key) (ap (λ r. r.0) (left_newer timestamp key value w pending e l)) ∙ e,
          omega arith,
          omega arith,
        )
        | no n ↦ (
          value,
          ap (get dec key) (ap (λ r. r.0) (put_older timestamp key value w pending e (omega arith)))
              ∙ get-put_self dec key value pending,
          omega arith,
          omega arith,
        )
      ]
