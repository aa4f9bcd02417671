-- ===== src/Responses/Limits.antt =====
-- response_limits.go: the limit of a stream, the writer that counts the bytes, and the outcome of a
-- request whose limit was exceeded. The sizes of the SDK and what the writer below does with a chunk
-- are parameters: how much it wrote, and whether it said that a resource is exhausted.
use airgate_openai.Base.{
  ltb, leb, if◌then◌else◌, ℕ, ◌+◌, ◌*◌, ◌/◌, Bool, true, ◌&&◌, ◌||◌, Option, none, some,
}

abbrev pub default_stream_response_bytes : ℕ
default_stream_response_bytes = 402_653_184

-- `limit.streamLimitBytes()`; 0 stands for what is not positive.
unfoldable pub stream_limit_bytes : Option ℕ → ℕ
stream_limit_bytes none = default_stream_response_bytes
stream_limit_bytes (some stream_bytes) =
    if ltb 0 stream_bytes then stream_bytes else default_stream_response_bytes

-- `streamResponseLimitBytes`, of the number of MiB that is configured, if there is a configuration.
unfoldable pub stream_response_limit_bytes : ℕ → Option ℕ → ℕ
stream_response_limit_bytes max_event_bytes none = default_stream_response_bytes
stream_response_limit_bytes max_event_bytes (some mib) =
    if leb (max_event_bytes / 1_048_576) mib && leb mib 4096
    then mib * 1_048_576
    else default_stream_response_bytes

-- The writer, with the flag of its limit.
pub record LimitedWriter : Type 0 where
  pub bytes : ℕ
  pub wrote : Bool
  pub exceeded : Bool

-- A chunk by its length, with what the writer below does with it.
pub record Chunk : Type 0 where
  pub size : ℕ
  pub written : ℕ
  pub is_exhausted : Bool

-- `Write`: the length that is handed to the writer below, if it is.
unfoldable pub write : ℕ → Chunk → LimitedWriter → LimitedWriter × Option ℕ
write max_bytes p w =
    let bytes = w.bytes + p.size in
    if ltb max_bytes bytes then (record w { bytes = bytes; exceeded = true }, none) else (
      record {
        bytes = bytes;
        wrote = w.wrote || ltb 0 p.written;
        exceeded = w.exceeded || p.is_exhausted;
      },
      some p.size,
    )

unfoldable pub write_header : ℕ → LimitedWriter → LimitedWriter
write_header code w = record w { wrote = w.wrote || leb 200 code }

pub data LimitedKind : Type 0 where
  kept_kind upstream_transient_kind stream_aborted_kind : LimitedKind

-- The kind of the outcome that `Forward` returns, `kept_kind` where the outcome is passed on. The limit
-- is exceeded by the error or the body that came back, or by what tripped it on the way.
unfoldable pub limited_outcome : Bool → Bool → Bool → Option LimitedWriter → LimitedKind
limited_outcome stream too_large tripped none =
    if too_large || tripped then upstream_transient_kind else kept_kind
limited_outcome stream too_large tripped (some w) =
    if too_large || tripped || w.exceeded
    then (if stream && w.wrote then stream_aborted_kind else upstream_transient_kind)
    else kept_kind
