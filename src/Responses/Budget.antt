-- ===== src/Responses/Budget.antt =====
-- response_limits.go: what a run of writes passes on is within the limit.
use airgate_openai.Base.{
  ℕ, ◌+◌, ◌*◌, ◌/◌, ◌≤◌, ◌<◌, ◌≡◌, refl, true, false, Option, none, some, List, [], ◌∷◌, map, arith,
  dec_le,
}
use airgate_openai.Responses.Limits.{
  LimitedWriter, Chunk, write, stream_response_limit_bytes, default_stream_response_bytes,
}

-- A run of writes: the writer after it and the lengths that were handed on.
unfoldable pub write_all : ℕ → List Chunk → LimitedWriter → LimitedWriter × List ℕ
write_all max_bytes [] w = (w, [])
write_all max_bytes (p ∷ ps) w =
    let s = write max_bytes p w in
    let rest = write_all max_bytes ps s.0 in
    (rest.0, elim s.1 [ none ↦ rest.1 | some n ↦ n ∷ rest.1 ])

unfoldable pub sum : List ℕ → ℕ
sum [] = 0
sum (n ∷ ns) = n + sum ns

refused_rest :
    (max_bytes : ℕ) (ps : List Chunk) (w : LimitedWriter)
    → max_bytes < w.bytes
    → ((write_all max_bytes ps w).1 ≡ [])
unfolding write_all write
refused_rest max_bytes [] w l = refl
refused_rest max_bytes (p ∷ ps) w l =
    let h = refused_rest max_bytes ps (write max_bytes p w).0 (ground arith) in ground arith

-- What a run of writes hands on to the writer below, with what was counted before it, is within the
-- limit, whatever the chunks are.
pub write_all-within :
    (max_bytes : ℕ) (ps : List Chunk) (w : LimitedWriter)
    → w.bytes ≤ max_bytes
    → w.bytes + sum (write_all max_bytes ps w).1 ≤ max_bytes
unfolding write_all write sum
write_all-within max_bytes [] w l = omega arith
write_all-within max_bytes (p ∷ ps) w l = elim (dec_le (w.bytes + p.size) max_bytes) [
  | yes g ↦
      let h = write_all-within max_bytes ps (write max_bytes p w).0 (ground arith) in ground arith
  | no n ↦ let h = refused_rest max_bytes ps (write max_bytes p w).0 (ground arith) in ground arith
]

exceeded-write_all :
    (max_bytes : ℕ) (ps : List Chunk) (w : LimitedWriter)
    → w.exceeded ≡ true
    → (write_all max_bytes ps w).0.exceeded ≡ true
unfolding write_all write
exceeded-write_all max_bytes [] w e = e
exceeded-write_all max_bytes (p ∷ ps) w e =
    exceeded-write_all max_bytes ps (write max_bytes p w).0 (ground arith)

-- Where a run of writes leaves the limit as not exceeded, every chunk was handed on, in order.
pub write_all_complete :
    (max_bytes : ℕ) (ps : List Chunk) (w : LimitedWriter)
    → (write_all max_bytes ps w).0.exceeded ≡ false
    → (write_all max_bytes ps w).1 ≡ map (λ p. p.size) ps
unfolding write_all write
write_all_complete max_bytes [] w e = refl
write_all_complete max_bytes (p ∷ ps) w e = elim (dec_le (w.bytes + p.size) max_bytes) [
  | yes g ↦ let h = write_all_complete max_bytes ps (write max_bytes p w).0 e in ground arith
  | no n ↦
      let h = exceeded-write_all max_bytes ps (write max_bytes p w).0 (ground arith) in absurd (cc)
]

-- The limit of a stream fits an event of the largest size, in whole MiB, and is at most 4 GiB, where
-- such an event is not larger than the default limit.
pub stream_response_limit_bytes-bounds :
    (max_event_bytes : ℕ) (mib : Option ℕ)
    → max_event_bytes ≤ default_stream_response_bytes
    → (max_event_bytes / 1_048_576 * 1_048_576 ≤ stream_response_limit_bytes max_event_bytes mib)
      × (stream_response_limit_bytes max_event_bytes mib ≤ 4_294_967_296)
unfolding stream_response_limit_bytes
stream_response_limit_bytes-bounds m none h = ground arith
stream_response_limit_bytes-bounds m (some mib) h = ground arith
