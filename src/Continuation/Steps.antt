-- ===== src/Continuation/Steps.antt =====
-- continuation_recovery.go: the scan of the input's items leaves what is true of any of them.
use airgate_openai.Base.{
  any, Text, codes, trim_space, ◌≡◌, ap, ◌∙◌, Bool, false, not, ◌&&◌, ◌||◌, none, some, List, [],
  ◌∷◌, arith,
}
use airgate_openai.Base.Json.{
  Json, null, bool, num, str, arr, obj, Items, Fields, items, field_at, string_of,
}
use airgate_openai.Continuation.Items.{
  is_tool_output_type, is_tool_call_context_type, is_valid_tool_call_context_item,
  is_compaction_type,
}
use airgate_openai.Continuation.Signals.{
  Signals, no_signals, see_input_item, see_input_items, see_input, see_message_list, signals_of,
  is_orphaned,
}

abbrev item_type : Fields → Text
item_type item = trim_space (string_of (field_at (codes "type") item))

-- An item that is a tool's output, one that is a call that an output may answer, and one that stands for
-- a compacted conversation.
pub is_output : Json → Bool
is_output (obj item) = is_tool_output_type (item_type item)
is_output _ = false

pub is_call : Json → Bool
is_call (obj item) =
    not (is_tool_output_type (item_type item))
    && (is_tool_call_context_type (item_type item)
        && is_valid_tool_call_context_item (item_type item) item)
is_call _ = false

pub is_compaction : Json → Bool
is_compaction (obj item) = is_compaction_type (item_type item)
is_compaction _ = false

-- The signals and what the items add to them.
pub record Added (vs : List Json) (s t : Signals) : Type 0 where
  pub output : t.has_tool_output ≡ (s.has_tool_output || any is_output vs)
  pub context : t.has_tool_call_context ≡ (s.has_tool_call_context || any is_call vs)
  pub compaction : t.has_compaction_replay ≡ (s.has_compaction_replay || any is_compaction vs)

see_input_item_lem : (item : Fields) (s : Signals) → Added (obj item ∷ []) s (see_input_item item s)
unfolding see_input_item is_output is_call is_compaction
see_input_item_lem item s = record {
  output = ground arith;
  context = ground arith;
  compaction = ground arith;
}

or_step : (a b c : Bool) → (a || (b || false)) || c ≡ (a || (b || c))
or_step a b c = ground arith

pub see_input_items_lem : (vs : List Json) (s : Signals) → Added vs s (see_input_items vs s)
unfolding see_input_items is_output is_call is_compaction
see_input_items_lem [] s = record {
  output = ground arith;
  context = ground arith;
  compaction = ground arith;
}
see_input_items_lem (obj item ∷ vs) s =
    let h = see_input_item_lem item s in
    let k = see_input_items_lem vs (see_input_item item s) in
    record {
      output =
          k.output
          ∙ ap (λ b. b || any is_output vs) h.output
          ∙ or_step s.has_tool_output (is_tool_output_type (item_type item)) (any is_output vs);
      context =
          k.context
          ∙ ap (λ b. b || any is_call vs) h.context
          ∙ or_step s.has_tool_call_context (is_call (obj item)) (any is_call vs);
      compaction =
          k.compaction
          ∙ ap (λ b. b || any is_compaction vs) h.compaction
          ∙ or_step s.has_compaction_replay (is_compaction_type (item_type item))
              (any is_compaction vs);
    }
see_input_items_lem (null ∷ vs) s =
    let k = see_input_items_lem vs s in
    record { output = k.output; context = k.context; compaction = k.compaction }
see_input_items_lem (bool b ∷ vs) s =
    let k = see_input_items_lem vs s in
    record { output = k.output; context = k.context; compaction = k.compaction }
see_input_items_lem (num b ∷ vs) s =
    let k = see_input_items_lem vs s in
    record { output = k.output; context = k.context; compaction = k.compaction }
see_input_items_lem (str b ∷ vs) s =
    let k = see_input_items_lem vs s in
    record { output = k.output; context = k.context; compaction = k.compaction }
see_input_items_lem (arr b ∷ vs) s =
    let k = see_input_items_lem vs s in
    record { output = k.output; context = k.context; compaction = k.compaction }

signals_of_input :
    (req : Fields) (vs : Items)
    → field_at (codes "input") req ≡ some (arr vs)
    → field_at (codes "messages") req ≡ none
    → signals_of req ≡ see_input_items (items vs) no_signals
unfolding signals_of see_input see_message_list
signals_of_input req vs e f =
    ap (λ o. see_message_list o (see_input (field_at (codes "input") req) no_signals)) f
    ∙ ap (λ o. see_input o no_signals) e

orphaned_of :
    {s : Signals} {a b c : Bool}
    → s.has_tool_output ≡ a
    → s.has_tool_call_context ≡ b
    → s.has_compaction_replay ≡ c
    → is_orphaned s ≡ (a && (not b && not c))
orphaned_of h k l = ground arith

-- A request with a list as its input and no messages is one with a tool's output and without its call
-- exactly when some item is an output, and none is a valid call or stands for a compacted
-- conversation, in whatever order they stand.
pub is_orphaned-signals_of :
    (req : Fields) (vs : Items)
    → field_at (codes "input") req ≡ some (arr vs)
    → field_at (codes "messages") req ≡ none
    → is_orphaned (signals_of req) ≡ (
        any is_output (items vs)
        && (not (any is_call (items vs)) && not (any is_compaction (items vs))))
is_orphaned-signals_of req vs e f =
    let k = see_input_items_lem (items vs) no_signals in
    ap is_orphaned (signals_of_input req vs e f) ∙ orphaned_of k.output k.context k.compaction
