-- ===== src/Requests.antt =====
-- The theorems at concrete inputs: failures, continuations and the times of a response.
use airgate_openai.Base.{
  ltb, leb, ◌==◌, if◌then◌else◌, ◌>>=◌, ◌>>◌, ltb→lt, lt→ltb, ltb→le, le→ltb, leb→le, leb→lt,
  ==_iff, tests, Bool-cases, Option-cases, Sum-cases, if_true, if_false, length, get_elem?, take,
  drop, All, any, length-append, length-take, All-append, All-append_left, All-append_right,
  All-imp, List-cases, Text, codes, Text-discrete, is_empty, byte_length, take_bytes, is_space,
  trim_space, to_lower, has_prefix, contains, contains_any, is_one_of, is_one_of-append, join_space,
  is_blank, is_text, GoMap, get, put, delete, Distinct, get-put, get-delete, get-put_self,
  get-put_ne, get-delete_self, get-delete_ne, put-Distinct, delete-Distinct, length-put_new,
  length-put_old, delete_absent, length-delete, ℕ, zero, suc, ◌+◌, ◌-◌, ◌*◌, ◌/◌, ◌%◌, ◌^◌, ◌≤◌,
  ◌<◌, min, max, ◌≡◌, refl, sym, ap, ◌∙◌, ◌≢◌, ◌↔◌, ◌⊎◌, inl, inr, ite, dite, if_pos, if_neg, Bool,
  true, false, not, ◌&&◌, ◌||◌, Option, none, some, List, [], ◌∷◌, ◌++◌, map, arith, dec_lt, dec_le,
  ℕ_discrete,
}
use mathlib.Core.Path.{subst}
use airgate_openai.Base.Int.{pos}
use airgate_openai.Base.Json.{Json, num, str, arr, obj, nil, cons, Fields, end, field, field_at}
use airgate_openai.Continuation.Recovery.{Headers, apply_recovery, recovery_applied}
use airgate_openai.Continuation.Laws.{
  Recovered, recovers, apply_recovery_lem, recovery_applied-apply_recovery,
}
use airgate_openai.Continuation.Signals.{signals_of, is_orphaned}
use airgate_openai.Continuation.Steps.{is_output, is_call, is_compaction, is_orphaned-signals_of}
use airgate_openai.Timing.Clock.{Event, new_response_event_timing, observe_all, is_seen}
use airgate_openai.Timing.Moments.{kept, first_ms, observe_all_lem}
use airgate_openai.Errors.Classify.{
  OutcomeKind, client_error, stream_aborted, is_encrypted_content_verification_error,
  is_model_unsupported_text,
}
use airgate_openai.Errors.Keywords.{is_context_too_large_error, context_too_large_status}
use airgate_openai.Errors.Blank.{is_context_too_large_error-413}
use airgate_openai.Errors.Failure.{no_scope, dispatch_candidate, Failure}
use airgate_openai.Errors.Events.{Payload, Reader, classify_node}
use airgate_openai.Errors.Outcome.{Err, upstream_error, response_failure_outcome}
use airgate_openai.Errors.Scope.{
  joined, response_failure_outcome-started, response_failure_outcome-dispatch,
  response_failure_outcome-encrypted,
}

abbrev output_item : Json
output_item = obj (
    field (codes "type") (str (codes "function_call_output"))
      (field (codes "call_id") (str (codes "c1")) end))

abbrev lone_output : Fields
lone_output =
    field (codes "previous_response_id") (str (codes "resp_1"))
      (field (codes "input") (arr (cons output_item nil)) end)

abbrev continued : Fields
continued = field (codes "previous_response_id") (str (codes "resp_1")) (
    field (codes "input") (str (codes "go on"))
      (field (codes "seed") (num (codes "9007199254740993")) end))

-- A float64, in two of the literals that it changes: one out of range, and one between two doubles.
abbrev float64 : Text → Option Text
float64 l =
    if is_text l (codes "1e999")
    then none
    else if is_text l (codes "9007199254740993")
    then some (codes "9007199254740992")
    else some l

some_inj : {a b : Text} → some a ≡ some b → a ≡ b
some_inj {a = a} h = ap (λ (o : Option Text). elim o [ none ↦ a | some x ↦ x ]) h

no_float : {a : Text} → none ≡ some a → ⊥
no_float h = ground arith

rounded : float64 (codes "9007199254740992") ≡ some (codes "9007199254740992")
unfolding is_one_of Text-discrete
rounded = refl

float64_again : (l m : Text) → float64 l ≡ some m → float64 m ≡ some m
float64_again l m h = elim (Bool-cases (is_text l (codes "1e999"))) [
  | inl a ↦ absurd (no_float (sym (if_true none _ a) ∙ h))
  | inr a ↦ elim (Bool-cases (is_text l (codes "9007199254740993"))) [
    | inl b ↦
        subst (λ x. float64 x ≡ some x)
          (some_inj (sym (if_false none _ a ∙ if_true _ (some l) b) ∙ h)) rounded
    | inr b ↦
        let kept_as = if_false none _ a ∙ if_false _ (some l) b in
        subst (λ x. float64 x ≡ some x) (some_inj (sym kept_as ∙ h)) kept_as
  ]
]

abbrev asking : Headers
asking = record { recovery = codes "Drop_Previous_Response_Id"; applied = none }

is_orphaned-signals_of_example : is_orphaned (signals_of lone_output) ≡ (
    any is_output (output_item ∷ [])
    && (not (any is_call (output_item ∷ [])) && not (any is_compaction (output_item ∷ []))))
unfolding field_at Text-discrete
is_orphaned-signals_of_example = is_orphaned-signals_of lone_output (cons output_item nil) refl refl

apply_recovery_lem_example :
    ((recovers float64 continued asking ≡ false)
      × (apply_recovery float64 (some (obj continued)) (some asking)
          ≡ (some (obj continued), some (record asking { applied = none }))))
    ⊎ ((recovers float64 continued asking ≡ true)
        × ((gs : Fields) × (apply_recovery float64 (some (obj continued)) (some asking)
              ≡ (some (obj gs), some (record asking { applied = some (codes "true") })))
            × Recovered float64 continued gs))
apply_recovery_lem_example = apply_recovery_lem float64 continued asking

recovery_applied-apply_recovery_example :
    let r = apply_recovery float64 (some (obj continued)) (some asking) in
    recovery_applied float64 r.0 r.1 ≡ recovers float64 continued asking
recovery_applied-apply_recovery_example =
    recovery_applied-apply_recovery float64 float64_again continued asking

abbrev quoted : Json → Text
quoted v = codes "{}"

abbrev created : Event
created = record {
  event_type = codes "response.created";
  bytes = codes "{}";
  json = some (obj end);
  event_at = 5_000_000;
  token_at = 5_000_000;
}

abbrev delta : Event
delta = record {
  event_type = codes "response.output_text.delta";
  bytes = codes "{}";
  json = some (obj (field (codes "delta") (str (codes "Hi")) end));
  event_at = 9_000_000;
  token_at = 9_000_001;
}

observe_all_lem_example :
    let t = observe_all quoted (created ∷ delta ∷ []) (new_response_event_timing 1_000_000) in
    (kept t.first_event_recorded t.first_event_ms none
      ≡ first_ms (is_seen quoted) (λ e. e.event_at) 1_000_000 (created ∷ delta ∷ []))
    × (kept t.first_token_recorded t.first_token_ms none
        ≡ first_ms
            (λ e. is_seen quoted e && airgate_openai.Timing.Clock.is_output quoted e)
            (λ e. e.token_at)
            1_000_000
            (created ∷ delta ∷ []))
    × (t.first_token_recorded ≡ true → t.first_event_ms ≤ t.first_token_ms)
observe_all_lem_example =
    observe_all_lem quoted 1_000_000 (created ∷ delta ∷ [])
      (omega arith, omega arith, (omega arith, omega arith, tt))

is_context_too_large_error-413_example :
    (is_context_too_large_error (codes "Rate limited: try again in 1413ms" ∷ []) ≡ true)
    × (context_too_large_status (codes "Rate limited: try again in 1413ms" ∷ []) ≡ 413)
unfolding contains to_lower join_space
is_context_too_large_error-413_example =
    is_context_too_large_error-413 (codes "Rate limited: try again in 1413ms" ∷ []) refl

abbrev plain_reader : Reader
plain_reader = record {
  is_letter = λ c. false;
  parse = λ s. none;
  raw = quoted;
  int = λ v. pos 0;
  until = λ n. pos 0;
  retry_delay = λ s. pos 0;
}

abbrev no_event : Payload
no_event = record { bytes = []; json = none }

abbrev no_name : OutcomeKind → Text
no_name k = codes "kind"

abbrev unreadable : Err
unreadable = record { text = codes "read: connection reset"; failure = none }

response_failure_outcome-started_example :
    let o = response_failure_outcome no_name plain_reader unreadable no_event true 7 in
    (o.failover_scope ≡ no_scope) × ((o.kind ≡ client_error) ⊎ (o.kind ≡ stream_aborted))
response_failure_outcome-started_example =
    response_failure_outcome-started no_name plain_reader unreadable no_event 7

abbrev no_model : Text
no_model = codes "The model gpt-x does not exist"

response_failure_outcome-dispatch_example :
    (false ≡ false)
    × (is_model_unsupported_text (joined [] [] no_model) ≡ true)
    × (is_encrypted_content_verification_error (joined [] [] no_model) ≡ false)
unfolding response_failure_outcome airgate_openai.Errors.Failure.failover_scope_for_kind
    airgate_openai.Errors.Failure.outcome_kind classify_node
    airgate_openai.Errors.Failure.with_upstream_error
    airgate_openai.Errors.Events.apply_rate_limit_reset
    airgate_openai.Errors.Failure.classify_responses_error
    airgate_openai.Errors.Failure.classify_normalized is_one_of Text-discrete
    airgate_openai.Errors.Codes.normalize_explicit_upstream_error_code to_lower trim_space
    is_encrypted_content_verification_error contains_any join_space
    airgate_openai.Errors.Keywords.contains_any_of contains has_prefix is_space
    airgate_openai.Base.lower airgate_openai.Base.trim_left is_model_unsupported_text
    airgate_openai.Errors.Keywords.any_contains airgate_openai.Errors.Keywords.contains_any_in_parts
    airgate_openai.Errors.Keywords.contains_trimmed airgate_openai.Errors.Keywords.found_in
    is_context_too_large_error
    airgate_openai.Errors.Keywords.is_function_call_output_without_call_error
    airgate_openai.Errors.Keywords.is_invalid_image_code
    airgate_openai.Errors.Keywords.is_invalid_image_input_text
    airgate_openai.Errors.Outcome.committed airgate_openai.Errors.Outcome.failed_outcome ℕ_discrete
response_failure_outcome-dispatch_example =
    response_failure_outcome-dispatch no_name plain_reader [] [] no_model none no_event false 7 refl

abbrev not_verified : Text
not_verified = codes "The encrypted content could not be verified"

response_failure_outcome-encrypted_example :
    let o =
      response_failure_outcome no_name plain_reader
        (record {
          text = not_verified;
          failure = some (classify_node plain_reader [] [] not_verified (some (obj end)));
        })
        no_event
        true
        7 in
    (o.kind ≡ client_error)
    × (o.failover_scope ≡ no_scope)
    × (o.status_code ≡ 400)
    × (o.body ≡ upstream_error (obj end))
unfolding is_encrypted_content_verification_error contains_any to_lower join_space
    airgate_openai.Errors.Codes.normalize_explicit_upstream_error_code Text-discrete trim_space
response_failure_outcome-encrypted_example =
    response_failure_outcome-encrypted no_name plain_reader [] [] not_verified end no_event true 7
      refl
