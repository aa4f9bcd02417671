-- ===== src/Timing/Clock.antt =====
-- The two moments that are kept of a response.
use airgate_openai.Base.{
  if◌then◌else◌, Text, is_empty, ℕ, ◌-◌, ◌/◌, ◌≤◌, Bool, true, false, not, ◌&&◌, ◌||◌, Option, List,
  [], ◌∷◌,
}
use airgate_openai.Base.Json.{Json}
use airgate_openai.Timing.Events.{is_response_output_event, is_chat_completions_output}

-- `responseEventTiming`; whether the start is set, and the start in nanoseconds.
pub record Timing : Type 0 where
  pub has_start : Bool
  pub start : ℕ
  pub first_event_ms : ℕ
  pub first_token_ms : ℕ
  pub first_event_recorded : Bool
  pub first_token_recorded : Bool

-- An event: its type, its bytes and what the reader finds in them, and when either moment is taken.
pub record Event : Type 0 where
  pub event_type : Text
  pub bytes : Text
  pub json : Option Json
  pub event_at : ℕ
  pub token_at : ℕ

abbrev pub new_response_event_timing : ℕ → Timing
new_response_event_timing start = record {
  has_start = true;
  start = start;
  first_event_ms = 0;
  first_token_ms = 0;
  first_event_recorded = false;
  first_token_recorded = false;
}

-- `time.Since(t.start).Milliseconds()`
abbrev pub since_ms : ℕ → ℕ → ℕ
since_ms start now = (now - start) / 1_000_000

module _ (raw : Json → Text) where
  unfoldable pub is_output : Event → Bool
  is_output e =
      is_response_output_event raw e.event_type e.json
      || (is_empty e.event_type && is_chat_completions_output raw e.json)

  abbrev pub is_seen : Event → Bool
  is_seen e = not (is_empty e.event_type && is_empty e.bytes)

  unfoldable pub note_event : Event → Timing → Timing
  note_event e t =
      if t.first_event_recorded
      then t
      else record t { first_event_ms = since_ms t.start e.event_at; first_event_recorded = true }

  unfoldable pub note_token : Event → Timing → Timing
  note_token e t =
      if not t.first_token_recorded && is_output e
      then record t { first_token_ms = since_ms t.start e.token_at; first_token_recorded = true }
      else t

  unfoldable pub observe : Event → Timing → Timing
  unfolding note_event note_token
  observe e t = if not (is_seen e) || not t.has_start then t else note_token e (note_event e t)

  unfoldable pub observe_all : List Event → Timing → Timing
  observe_all [] t = t
  observe_all (e ∷ es) t = observe_all es (observe e t)

  -- The moments of the events come one after the other, from `now` on.
  abbrev pub Ordered : ℕ → List Event → Type 0
  Ordered now [] = Unit
  Ordered now (e ∷ es) = (now ≤ e.event_at) × (e.event_at ≤ e.token_at) × Ordered e.token_at es
