-- ===== src/Continuation/Laws.antt =====
-- continuation_recovery.go: what the recovery does to a request.
use airgate_openai.Base.{
  sym, ◌>>=◌, if_true, if_false, Bool-cases, Option-cases, Text, codes, ◌≡◌, ap, ◌∙◌, ◌≢◌, ◌⊎◌, inl,
  inr, Bool, true, false, not, ◌&&◌, Option, none, some, arith,
}
use airgate_openai.Base.Json.{Json, obj, Fields, field_at, remove_field, is_present}
use airgate_openai.Continuation.Signals.{signals_of, is_orphaned}
use airgate_openai.Continuation.Recode.{
  recode, recode_fields, field_at-recode_fields, is_present-recode_fields,
  recode_fields-remove_field, recode_fields_again,
}
use airgate_openai.Continuation.Recovery.{
  to_map, previous_response_id, Headers, recovery_requested, apply_recovery, recovery_applied,
  is_marked,
}
use airgate_openai.Continuation.Branches.{
  removed, field_at_kept, requested-applied, signals_of-remove_field, is_marked-true, apply_unasked,
  apply_unnamed, apply_refused, apply_granted, delegated_undecoded, delegated_orphaned,
  delegated_decoded,
}

-- A body after its recovery: the previous response is gone, and every other member is that of the
-- body before, decoded and encoded.
pub record Recovered (float : Text → Option Text) (fs gs : Fields) : Type 0 where
  pub lost : field_at previous_response_id gs ≡ none
  pub others :
      (k : Text) → previous_response_id ≢ k → field_at k gs ≡ (field_at k fs >>= recode float)

remove_field-Recovered :
    (float : Text → Option Text) (fs gs : Fields)
    → recode_fields float fs ≡ some gs
    → Recovered float fs (remove_field previous_response_id gs)
remove_field-Recovered float fs gs e = record {
  lost = removed gs;
  others = λ k n. field_at_kept k gs n ∙ field_at-recode_fields float k fs gs e;
}

module _ (float : Text → Option Text) where
  -- Whether the decoded body tells that the recovery may be made.
  abbrev pub is_recoverable : Option Fields → Bool
  is_recoverable none = false
  is_recoverable (some gs) = not (is_orphaned (signals_of gs))

  -- A request asks for the recovery, names a previous response, can be decoded, and has no tool's
  -- output without its call.
  abbrev pub recovers : Fields → Headers → Bool
  recovers fs h =
      recovery_requested (some h)
      && (is_present (field_at previous_response_id fs) && is_recoverable (recode_fields float fs))

  -- What the recovery leaves alone, and what it takes.
  abbrev Untouched : Fields → Headers → Type 0
  Untouched fs h =
      (apply_recovery float (some (obj fs)) (some h)
        ≡ (some (obj fs), some (record h { applied = none })))
      × (recovers fs h ≡ false)

  abbrev Taken : Fields → Headers → Type 0
  Taken fs h =
      (gs : Fields) × (recode_fields float fs ≡ some gs)
      × (apply_recovery float (some (obj fs)) (some h) ≡ (
        some (obj (remove_field previous_response_id gs)),
        some (record h { applied = some (codes "true") }),
      ))
      × (recovery_requested (some h) ≡ true)
      × (is_present (field_at previous_response_id fs) ≡ true)
      × (is_orphaned (signals_of gs) ≡ false)

  decoded_cases :
      (fs gs : Fields) (h : Headers)
      → recovery_requested (some h) ≡ true
      → recode_fields float fs ≡ some gs
      → Untouched fs h ⊎ Taken fs h
  decoded_cases fs gs h r e = elim (Bool-cases (is_orphaned (signals_of gs))) [
    | inl o ↦ inl (apply_refused float fs h (delegated_orphaned float fs gs e o), ground arith)
    | inr o ↦
        let d = delegated_decoded float fs gs e o in
        let q = is_present-recode_fields float previous_response_id fs gs e in
        elim (Bool-cases (is_present (field_at previous_response_id fs))) [
          | inl p ↦
              let granted = d ∙ if_true _ _ (q ∙ p) in
              inr (gs, e, apply_granted float fs _ h r p granted (removed gs), r, p, o)
          | inr p ↦ inl (apply_unnamed float fs h p (inr (d ∙ if_false _ _ (q ∙ p))), ground arith)
        ]
  ]

  recovery_cases : (fs : Fields) (h : Headers) → Untouched fs h ⊎ Taken fs h
  recovery_cases fs h = elim (Bool-cases (recovery_requested (some h))) [
    | inr r ↦ inl (apply_unasked float fs h r, ground arith)
    | inl r ↦ elim (Option-cases (recode_fields float fs)) [
      | inl e ↦ inl (apply_refused float fs h (delegated_undecoded float fs e), ground arith)
      | inr (gs, e) ↦ decoded_cases fs gs h r e
    ]
  ]

  Taken-recovers : (fs : Fields) (h : Headers) → Taken fs h → recovers fs h ≡ true
  Taken-recovers fs h (gs, e, a, r, p, o) = ground arith

  -- A request that asks for the recovery, names a previous response, can be decoded, and has no tool's
  -- output without its call, loses the previous response; each other member is decoded and encoded
  -- again, and the request is marked. Any other one is left as it is, and its mark is taken off.
  pub apply_recovery_lem :
      (fs : Fields) (h : Headers)
      → ((recovers fs h ≡ false)
          × (apply_recovery float (some (obj fs)) (some h)
              ≡ (some (obj fs), some (record h { applied = none }))))
        ⊎ ((recovers fs h ≡ true)
            × ((gs : Fields) × (apply_recovery float (some (obj fs)) (some h)
                  ≡ (some (obj gs), some (record h { applied = some (codes "true") })))
                × Recovered float fs gs))
  apply_recovery_lem fs h = elim (recovery_cases fs h) [
    | inl (e, n) ↦ inl (n, e)
    | inr t ↦
        let (gs, e, a, _, _, _) = t in
        inr (
          Taken-recovers fs h t,
          (remove_field previous_response_id gs, a, remove_field-Recovered float fs gs e),
        )
  ]

  unmarked :
      (fs : Fields) (h : Headers)
      → recovery_applied float (some (obj fs)) (some (record h { applied = none })) ≡ false
  unfolding recovery_applied is_marked
  unmarked fs h = ground arith

  applied_where_gone :
      (gs : Fields) (h : Headers)
      → recovery_requested (some h) ≡ true
      → field_at previous_response_id gs ≡ none
      → recode_fields float gs ≡ some gs
      → is_orphaned (signals_of gs) ≡ false
      → recovery_applied float (some (obj gs)) (some (record h { applied = some (codes "true") }))
        ≡ true
  unfolding recovery_applied to_map
  applied_where_gone gs h r e d o =
      let q = requested-applied h (some (codes "true")) in let m = is_marked-true in ground arith

  -- The answer is on what `apply_recovery` returns.
  applied_on :
      {x y : Option Json × Option Headers}
      → x ≡ y
      → recovery_applied float x.0 x.1 ≡ recovery_applied float y.0 y.1
  applied_on e = ap (λ p. recovery_applied float p.0 p.1) e

  -- If the form in which a number is written again is its own form, a request counts as one that went
  -- on without its previous response exactly when it asked for the recovery, named such a response,
  -- could be decoded, and had no tool's output without its call.
  pub recovery_applied-apply_recovery :
      (again : (l m : Text) → float l ≡ some m → float m ≡ some m) (fs : Fields) (h : Headers)
      → let r = apply_recovery float (some (obj fs)) (some h) in
        recovery_applied float r.0 r.1 ≡ recovers fs h
  recovery_applied-apply_recovery again fs h = elim (recovery_cases fs h) [
    | inl (e, n) ↦ applied_on e ∙ unmarked fs h ∙ sym n
    | inr t ↦
        let (gs, e, a, r, p, o) = t in
        let fixed =
          recode_fields-remove_field float previous_response_id gs gs
            (recode_fields_again float again fs gs e) in
        applied_on a
        ∙ applied_where_gone (remove_field previous_response_id gs) h r (removed gs) fixed
            (ap is_orphaned (signals_of-remove_field gs) ∙ o)
        ∙ sym (Taken-recovers fs h t)
  ]
