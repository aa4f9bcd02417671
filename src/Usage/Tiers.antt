-- ===== src/Usage/Tiers.antt =====
-- backend/internal/gateway/service_tier.go and the normal forms of request_convert.go: which service
-- tier a response is billed by.
use airgate_openai.Base.{
  if◌then◌else◌, Bool-cases, Text, codes, Text-discrete, is_empty, trim_space, to_lower, is_one_of,
  ◌≡◌, refl, ◌⊎◌, inl, inr, List, [], ◌∷◌, arith,
}

abbrev pub priority : Text
priority = codes "priority"

abbrev pub flex : Text
flex = codes "flex"

abbrev pub default_tier : Text
default_tier = codes "default"

unfoldable pub normalize_service_tier : Text → Text
normalize_service_tier tier =
    let t = to_lower (trim_space tier) in
    if is_one_of t (priority ∷ codes "fast" ∷ [])
    then priority
    else if is_one_of t (flex ∷ [])
    then flex
    else []

unfoldable pub normalize_wire_service_tier : Text → Text
normalize_wire_service_tier tier =
    if is_one_of (to_lower (trim_space tier)) (default_tier ∷ [])
    then default_tier
    else normalize_service_tier tier

unfoldable pub first_non_empty_tier : List Text → Text
first_non_empty_tier [] = []
first_non_empty_tier (t ∷ ts) =
    let n = normalize_wire_service_tier t in if is_empty n then first_non_empty_tier ts else n

unfoldable pub resolve_usage_service_tier : Text → Text → Text
resolve_usage_service_tier requested upstream =
    let actual = normalize_wire_service_tier upstream in
    if is_empty actual then normalize_service_tier requested else normalize_service_tier actual

-- The tiers that are billed apart, and the ordinary one.
normalize_range :
    (t : Text)
    → (normalize_service_tier t ≡ priority)
      ⊎ (normalize_service_tier t ≡ flex)
      ⊎ (normalize_service_tier t ≡ [])
unfolding normalize_service_tier
normalize_range t =
    elim (Bool-cases (is_one_of (to_lower (trim_space t)) (priority ∷ codes "fast" ∷ []))) [
      | inl a ↦ inl (rw a)
      | inr b ↦ elim (Bool-cases (is_one_of (to_lower (trim_space t)) (flex ∷ []))) [
        | inl a ↦ inr (inl (rw (b, a)))
        | inr c ↦ inr (inr (rw (b, c)))
      ]
    ]

keeps_priority : normalize_service_tier priority ≡ priority
unfolding normalize_service_tier to_lower trim_space is_one_of Text-discrete
keeps_priority = refl

keeps_flex : normalize_service_tier flex ≡ flex
unfolding normalize_service_tier to_lower trim_space is_one_of Text-discrete
keeps_flex = refl

keeps_default : normalize_service_tier default_tier ≡ []
unfolding normalize_service_tier to_lower trim_space is_one_of Text-discrete
keeps_default = refl

idempotent :
    (t : Text) → normalize_service_tier (normalize_service_tier t) ≡ normalize_service_tier t
idempotent t = elim (normalize_range t) [
  | inl p ↦ rw p keeps_priority
  | inr (inl f) ↦ rw f keeps_flex
  | inr (inr e) ↦ rw e empty
]
  where
    empty : normalize_service_tier [] ≡ []
    empty = unfold normalize_service_tier to_lower trim_space is_one_of Text-discrete in refl

-- What is billed for a word that a request names.
abbrev pub requested_tiers : List (Text × Text)
requested_tiers =
    (codes "priority", priority) ∷ (codes "fast", priority) ∷ (codes "flex", flex) ∷ []

-- What is billed for a word that a response reports; `default` is the ordinary tier.
abbrev pub reported_tiers : List (Text × Text)
reported_tiers = (codes "default", []) ∷ requested_tiers

-- The entry of a word, its case and the spaces around it aside, or else `other`.
abbrev pub tier_in : List (Text × Text) → Text → Text → Text
tier_in [] tier other = other
tier_in ((word, billed) ∷ rest) tier other =
    if is_one_of (to_lower (trim_space tier)) (word ∷ []) then billed else tier_in rest tier other

tier_in-requested :
    (tier other : Text)
    → tier_in requested_tiers tier other
      ≡ (if is_empty (normalize_service_tier tier) then other else normalize_service_tier tier)
unfolding normalize_service_tier is_one_of
tier_in-requested tier other = ground arith

or_empty : (t : Text) → (if is_empty t then [] else t) ≡ t
or_empty [] = refl
or_empty (c ∷ t) = refl

-- The tier that the response reports is billed if it is one of `priority`, `fast` (as `priority`),
-- `flex` and `default` (as the ordinary tier), whatever was requested; otherwise the requested one if
-- it is one of the first three, and else the ordinary tier.
pub resolve_usage_service_tier_lem :
    (requested upstream : Text)
    → resolve_usage_service_tier requested upstream
      ≡ tier_in reported_tiers upstream (tier_in requested_tiers requested [])
unfolding resolve_usage_service_tier normalize_wire_service_tier
resolve_usage_service_tier_lem requested upstream =
    elim (Bool-cases (is_one_of (to_lower (trim_space upstream)) (default_tier ∷ []))) [
      | inl d ↦ rw d (keeps_default)
      | inr n ↦
          rw
            (
              n,
              idempotent upstream,
              tier_in-requested upstream,
              tier_in-requested requested,
              or_empty (normalize_service_tier requested),
            )
            refl
    ]

-- What is billed is priority, flex or the ordinary tier, and `fast` is never told from `priority`.
pub resolve_usage_service_tier-range :
    (requested upstream : Text)
    → let tier = resolve_usage_service_tier requested upstream in
      (tier ≡ priority) ⊎ (tier ≡ flex) ⊎ (tier ≡ [])
unfolding resolve_usage_service_tier
resolve_usage_service_tier-range requested upstream =
    elim (Bool-cases (is_empty (normalize_wire_service_tier upstream))) [
      | inl e ↦ rw e (normalize_range requested)
      | inr e ↦ rw e (normalize_range (normalize_wire_service_tier upstream))
    ]
