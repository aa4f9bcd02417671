-- ===== src/Continuation/Branches.antt =====
-- continuation_recovery.go: the branches of the recovery of a request.
use airgate_openai.Base.{
  if◌then◌else◌, Text, codes, Text-discrete, trim_space, to_lower, is_one_of, ◌≡◌, refl, ap, ◌∙◌,
  ◌≢◌, ◌⊎◌, if_pos, if_neg, true, false, Option, none, some, arith,
}
use airgate_openai.Base.Json.{
  obj, Fields, field_at, remove_field, is_present, field_at-remove_field,
}
use airgate_openai.Continuation.Signals.{
  signals_of, is_orphaned, see_message_list, see_input, no_signals,
}
use airgate_openai.Continuation.Recode.{recode_fields}
use airgate_openai.Continuation.Recovery.{
  to_map, previous_response_id, Headers, recovery_requested, delegated_recovery_body,
  apply_recovery, is_marked,
}

requested-cleared :
    (h : Headers)
    → recovery_requested (some (record h { applied = none })) ≡ recovery_requested (some h)
unfolding recovery_requested
requested-cleared h = refl

pub removed :
    (fs : Fields) → field_at previous_response_id (remove_field previous_response_id fs) ≡ none
removed fs =
    field_at-remove_field previous_response_id previous_response_id fs
    ∙ if_pos (Text-discrete previous_response_id previous_response_id) refl _ _

pub field_at_kept :
    (k : Text) (fs : Fields)
    → previous_response_id ≢ k
    → field_at k (remove_field previous_response_id fs) ≡ field_at k fs
field_at_kept k fs n =
    field_at-remove_field k previous_response_id fs
    ∙ if_neg (Text-discrete previous_response_id k) n _ _

pub signals_of-remove_field :
    (fs : Fields) → signals_of (remove_field previous_response_id fs) ≡ signals_of fs
unfolding signals_of
signals_of-remove_field fs =
    ap
      (λ o.
        see_message_list o
          (see_input (field_at (codes "input") (remove_field previous_response_id fs)) no_signals))
      (field_at_kept (codes "messages") fs (λ e. ground arith))
    ∙ ap (λ o. see_message_list (field_at (codes "messages") fs) (see_input o no_signals))
        (field_at_kept (codes "input") fs (λ e. ground arith))

pub is_marked-true : is_marked (some (codes "true")) ≡ true
unfolding is_marked is_one_of Text-discrete to_lower trim_space
is_marked-true = refl

pub requested-applied :
    (h : Headers) (a : Option Text)
    → recovery_requested (some (record h { applied = a })) ≡ recovery_requested (some h)
unfolding recovery_requested
requested-applied h a = refl

module _ (float : Text → Option Text) where
  pub apply_unasked :
      (fs : Fields) (h : Headers)
      → recovery_requested (some h) ≡ false
      → apply_recovery float (some (obj fs)) (some h)
        ≡ (some (obj fs), some (record h { applied = none }))
  unfolding apply_recovery
  apply_unasked fs h d = let q = requested-cleared h in ground arith

  pub apply_unnamed :
      (fs : Fields) (h : Headers)
      → is_present (field_at previous_response_id fs) ≡ false
      → (delegated_recovery_body float (some (obj fs)) ≡ none)
        ⊎ (delegated_recovery_body float (some (obj fs)) ≡ some (some (obj fs)))
      → apply_recovery float (some (obj fs)) (some h)
        ≡ (some (obj fs), some (record h { applied = none }))
  unfolding apply_recovery
  apply_unnamed fs h n d = ground arith

  pub apply_refused :
      (fs : Fields) (h : Headers)
      → delegated_recovery_body float (some (obj fs)) ≡ none
      → apply_recovery float (some (obj fs)) (some h)
        ≡ (some (obj fs), some (record h { applied = none }))
  unfolding apply_recovery
  apply_refused fs h d = ground arith

  pub apply_granted :
      (fs gs : Fields) (h : Headers)
      → recovery_requested (some h) ≡ true
      → is_present (field_at previous_response_id fs) ≡ true
      → delegated_recovery_body float (some (obj fs)) ≡ some (some (obj gs))
      → field_at previous_response_id gs ≡ none
      → apply_recovery float (some (obj fs)) (some h)
        ≡ (some (obj gs), some (record h { applied = some (codes "true") }))
  unfolding apply_recovery
  apply_granted fs gs h r p d e = let q = requested-cleared h in ground arith

  pub delegated_undecoded :
      (fs : Fields)
      → recode_fields float fs ≡ none
      → delegated_recovery_body float (some (obj fs)) ≡ none
  unfolding delegated_recovery_body to_map
  delegated_undecoded fs e = ground arith

  pub delegated_orphaned :
      (fs gs : Fields)
      → recode_fields float fs ≡ some gs
      → is_orphaned (signals_of gs) ≡ true
      → delegated_recovery_body float (some (obj fs)) ≡ none
  unfolding delegated_recovery_body to_map
  delegated_orphaned fs gs e o = ground arith

  pub delegated_decoded :
      (fs gs : Fields)
      → recode_fields float fs ≡ some gs
      → is_orphaned (signals_of gs) ≡ false
      → delegated_recovery_body float (some (obj fs)) ≡ (
          if is_present (field_at previous_response_id gs)
          then some (some (obj (remove_field previous_response_id gs)))
          else some (some (obj fs)))
  unfolding delegated_recovery_body to_map
  delegated_decoded fs gs e o = ground arith
