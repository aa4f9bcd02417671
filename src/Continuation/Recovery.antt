-- ===== src/Continuation/Recovery.antt =====
-- continuation_recovery.go: the recovery of a request without its previous response. A body is its JSON
-- value, where it is one; a map that is encoded again has its numbers as float64 writes them, by the
-- parameter `float` of Continuation.Recode. Of the headers only the two of the recovery are kept, and
-- the applied one is `none` where it is absent.
use airgate_openai.Base.{
  if◌then◌else◌, Text, codes, trim_space, to_lower, is_blank, is_text, Bool, false, not, ◌&&◌, ◌||◌,
  Option, none, some,
}
use airgate_openai.Base.Json.{
  text_of, Json, null, obj, Fields, end, field_at, remove_field, is_present,
}
use airgate_openai.Continuation.Recode.{recode_fields}
use airgate_openai.Continuation.Signals.{signals_of, is_orphaned}

abbrev pub previous_response_id : Text
previous_response_id = codes "previous_response_id"

-- `gjson.GetBytes(body, "previous_response_id")`
abbrev pub previous_of : Option Json → Option Json
previous_of (some (obj fs)) = field_at previous_response_id fs
previous_of _ = none

pub record Headers : Type 0 where
  pub recovery : Text
  pub applied : Option Text

-- `strings.EqualFold` of the trimmed header, with an ASCII literal of lower case.
unfoldable pub recovery_requested : Option Headers → Bool
recovery_requested none = false
recovery_requested (some h) =
    is_text (to_lower (trim_space h.recovery)) (codes "drop_previous_response_id")

abbrev pub clear_applied : Option Headers → Option Headers
clear_applied none = none
clear_applied (some h) = some (record h { applied = none })

abbrev pub mark_applied : Option Headers → Option Headers
mark_applied none = none
mark_applied (some h) = some (record h { applied = some (codes "true") })

unfoldable pub is_marked : Option Text → Bool
is_marked none = false
is_marked (some a) = is_text (to_lower (trim_space a)) (codes "true")

module _ (float : Text → Option Text) where
  -- `json.Unmarshal` into a map: `null` leaves it nil, and what is no object fails, as does a number
  -- that no float64 holds.
  unfoldable pub to_map : Option Json → Option Fields
  to_map (some null) = some end
  to_map (some (obj fs)) = recode_fields float fs
  to_map _ = none

  -- The body, or `none` where the recovery is refused.
  unfoldable pub delegated_recovery_body : Option Json → Option (Option Json)
  delegated_recovery_body body = elim (to_map body) [
    | none ↦ none
    | some req ↦
        if is_orphaned (signals_of req)
        then none
        else if is_present (field_at previous_response_id req)
        then some (some (obj (remove_field previous_response_id req)))
        else some body
  ]

  -- That the bytes changed, the last condition on the mark, follows from the loss of the field.
  unfoldable pub apply_recovery : Option Json → Option Headers → Option Json × Option Headers
  apply_recovery body headers =
      let h = clear_applied headers in
      if not (recovery_requested h) then (body, h) else elim (delegated_recovery_body body) [
        | none ↦ (body, h)
        | some patched ↦ (
          patched,
          (if is_present (previous_of body) && not (is_present (previous_of patched))
              then mark_applied h
              else h),
        )
      ]

  unfoldable pub recovery_applied : Option Json → Option Headers → Bool
  recovery_applied body none = false
  recovery_applied body (some h) =
      if not (recovery_requested (some h)) || is_present (previous_of body)
      then false
      else if not (is_marked h.applied)
      then false
      else elim (to_map body) [ none ↦ false | some req ↦ not (is_orphaned (signals_of req)) ]

  module _ (raw : Json → Text) where
    unfoldable pub can_recover : Option Json → Bool
    can_recover body =
        if is_blank (text_of raw (previous_of body))
        then false
        else elim (to_map body) [ none ↦ false | some req ↦ not (is_orphaned (signals_of req)) ]

    -- What `previousResponseNotFoundRecoveryBody` hands to the normal form of the input.
    unfoldable pub not_found_recovery_body : Option Json → Option Json
    not_found_recovery_body body = if not (can_recover body) then none else elim (to_map body) [
      | none ↦ none
      | some req ↦ some (obj (remove_field previous_response_id req))
    ]
