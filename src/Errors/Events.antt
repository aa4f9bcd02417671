-- ===== src/Errors/Events.antt =====
-- backend/internal/gateway/responses_failure.go, continuation_recovery.go and explicit_upstream_error.go:
-- the failure that an event or a body tells of. The JSON reader (`gjson`) is a third-party package: what
-- it makes of the bytes, of a number and of a raw value are parameters, and so is the clock.
use airgate_openai.Base.{
  ltb, if◌then◌else◌, Text, codes, is_empty, trim_space, to_lower, has_prefix, contains, is_text, ℕ,
  zero, suc, ◌-◌, ◌*◌, ◌%◌, ◌^◌, Bool, true, false, not, ◌&&◌, ◌||◌, Option, none, some, [], ◌∷◌,
}
use airgate_openai.Base.Int.{ℤ, pos, negsuc}
use airgate_openai.Base.Json.{Json, obj, text_of, member, is_present}
use airgate_openai.Errors.Codes.{
  normalize_explicit_upstream_error_code, is_explicit_safety_rejected_code,
}
use airgate_openai.Errors.Classify.{Body}
use airgate_openai.Errors.Failure.{
  Failure, rate_limited, classify_responses_error, with_upstream_error,
}

-- The bytes of an event or of a body: as text, and what the reader finds in them.
pub record Payload : Type 0 where
  pub bytes : Text
  pub json : Option Json

-- `time.Duration(v) * time.Second`, which wraps around.
unfoldable pub seconds : ℕ → ℤ
seconds v =
    let d = v * 1_000_000_000 % 2 ^ 64 in if ltb d (2 ^ 63) then pos d else negsuc (2 ^ 64 - 1 - d)

-- `explicitUpstreamError`
pub record Rejection : Type 0 where
  pub upstream_code : Text
  pub code : Text
  pub message : Text
  pub param : Text

pub record Reader : Type 0 where
  -- `unicode.IsLetter` or `unicode.IsDigit`, of code points beyond ASCII
  pub is_letter : ℕ → Bool
  -- `gjson.Parse`, where `gjson.Valid` holds.
  pub parse : Text → Option Json
  -- The raw text of a value, and `Result.Int`.
  pub raw : Json → Text
  pub int : Json → ℤ
  -- `time.Until(time.Unix(ts, 0))`
  pub until : ℕ → ℤ
  -- `parseRetryDelay`
  pub retry_delay : Text → ℤ

abbrev get_text : Reader → Text → Option Json → Text
get_text r k node = text_of r.raw (member k node)

-- `strings.TrimSpace(node.Get(k).String())`, and in lower case.
abbrev pub trimmed_at : Reader → Text → Option Json → Text
trimmed_at r k node = trim_space (get_text r k node)

abbrev pub lowered_at : Reader → Text → Option Json → Text
lowered_at r k node = to_lower (trimmed_at r k node)

abbrev pub error_node : Option Json → Option Json
error_node json = member (codes "error") json

abbrev pub response_error_node : Option Json → Option Json
response_error_node json = member (codes "error") (member (codes "response") json)

abbrev is_object : Option Json → Bool
is_object (some (obj fs)) = true
is_object _ = false

abbrev positive : ℤ → Option ℕ
positive (pos (suc n)) = some (suc n)
positive _ = none

abbrev int_at : Reader → Text → Option Json → Option ℕ
int_at r k node = elim (member k node) [ none ↦ none | some v ↦ positive (r.int v) ]

-- The end of a limit, `resets_at`.
unfoldable reset_at : Reader → Option Json → ℤ → ℤ
reset_at r node delay = elim (int_at r (codes "resets_at") node) [
  | none ↦ delay
  | some ts ↦ elim (positive (r.until ts)) [ none ↦ delay | some d ↦ pos d ]
]

unfoldable pub apply_rate_limit_reset : Reader → Option Json → Failure → Failure
unfolding reset_at seconds
apply_rate_limit_reset r node e = elim e.kind [
  | rate_limited ↦ record e {
    retry_after = elim (int_at r (codes "resets_in_seconds") node) [
      | some v ↦ seconds v
      | none ↦ reset_at r node e.retry_after
    ];
  }
  | _ ↦ e
]

-- What the readers of events do with the three texts that they find.
unfoldable pub classify_node : Reader → Text → Text → Text → Option Json → Failure
classify_node r err_type err_code msg node =
    with_upstream_error node
      (apply_rate_limit_reset r node (classify_responses_error r.retry_delay err_type err_code msg))

unfoldable pub classify_responses_failure : Reader → Payload → Option Failure
unfolding classify_node
classify_responses_failure r body =
    let node = response_error_node body.json in
    let msg = trimmed_at r (codes "message") node in
    if not (is_text (get_text r (codes "type") body.json) (codes "response.failed"))
    then none
    else some (
        classify_node r (lowered_at r (codes "type") node) (lowered_at r (codes "code") node)
          (if is_empty msg then codes "上游返回 response.failed" else msg) node)

unfoldable pub classify_ws_error_event : Reader → Payload → Option Failure
unfolding classify_node
classify_ws_error_event r body =
    let node = error_node body.json in
    let event_type = get_text r (codes "type") body.json in
    let msg = trimmed_at r (codes "message") node in
    if not (is_present node)
    then none
    else if not (is_empty event_type) && not (is_text event_type (codes "error"))
    then none
    else some (
        classify_node r (lowered_at r (codes "type") node) (lowered_at r (codes "code") node)
          (if is_empty msg then trim_space body.bytes else msg) node)

-- The first text that is not empty.
abbrev or_else : Text → Text → Text
or_else [] t = t
or_else (c ∷ s) t = c ∷ s

unfoldable pub classify_generic_sse_error_event : Reader → Payload → Option Failure
unfolding classify_node
classify_generic_sse_error_event r body =
    let node = error_node body.json in
    let event_type = lowered_at r (codes "type") body.json in
    let msg =
      or_else (or_else (trimmed_at r (codes "message") node) (trim_space (text_of r.raw node)))
        (trimmed_at r (codes "message") body.json) in
    let err_type =
      or_else
        (or_else (lowered_at r (codes "type") node) (lowered_at r (codes "error_type") body.json))
        event_type in
    let err_code =
      or_else (lowered_at r (codes "code") node) (lowered_at r (codes "code") body.json) in
    let signal =
      is_present node
      || not (is_empty err_code)
      || contains event_type (codes "error")
      || contains err_type (codes "error") in
    if is_empty msg || not signal then none else some (classify_node r err_type err_code msg node)

unfoldable pub classify_open_ai_error_body : Reader → Payload → Option Failure
classify_open_ai_error_body r body =
    let node = error_node body.json in
    let of = if is_present node then node else body.json in
    let msg =
      if is_present node
      then trimmed_at r (codes "message") of
      else or_else (trimmed_at r (codes "detail") of) (trimmed_at r (codes "message") of) in
    let err_type = lowered_at r (codes "type") of in
    let err_code = lowered_at r (codes "code") of in
    if is_empty msg && is_empty err_type && is_empty err_code
    then none
    else some
        (with_upstream_error of (classify_responses_error r.retry_delay err_type err_code msg))

-- One step of the loop of `parseExplicitUpstreamErrorDepth`, where a message may hold another body,
-- and the loop, on the levels that are left.
unfoldable pub rejection_at : Reader → (Text → Option Rejection) → Option Json → Option Rejection
rejection_at r nested node =
    let upstream = lowered_at r (codes "code") node in
    let message = trimmed_at r (codes "message") node in
    if not (is_object node)
    then none
    else if not (is_empty upstream)
    then some (record {
      upstream_code = upstream;
      code = normalize_explicit_upstream_error_code upstream;
      message = message;
      param = trimmed_at r (codes "param") node;
    })
    else if has_prefix message (codes "{")
    then nested message
    else none

unfoldable pub explicit_error : Reader → ℕ → Option Json → Option Rejection
unfolding rejection_at
explicit_error r zero json = none
explicit_error r (suc n) json =
    let nested = λ (message : Text). explicit_error r n (r.parse message) in
    elim (rejection_at r nested (error_node json)) [
      | some e ↦ some e
      | none ↦ rejection_at r nested (response_error_node json)
    ]

unfoldable pub parse_explicit_upstream_error : Reader → Payload → Option Rejection
unfolding explicit_error
parse_explicit_upstream_error r body = explicit_error r 2 (r.parse body.bytes)

unfoldable pub is_explicit_safety_rejected_payload : Reader → Payload → Bool
is_explicit_safety_rejected_payload r body = elim (parse_explicit_upstream_error r body) [
  | none ↦ false
  | some e ↦ is_explicit_safety_rejected_code e.code
]

-- What the classification by status reads from a body.
unfoldable pub body_of : Reader → Payload → Body
unfolding parse_explicit_upstream_error
body_of r body = record {
  explicit = elim (parse_explicit_upstream_error r body) [ none ↦ none | some e ↦ some e.code ];
  found_codes =
      get_text r (codes "code") (error_node body.json)
      ∷ get_text r (codes "code") (response_error_node body.json)
      ∷ get_text r (codes "code") body.json
      ∷ [];
  text = body.bytes;
}
