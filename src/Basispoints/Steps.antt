-- ===== src/Basispoints/Steps.antt =====
-- backend/internal/basispoints/plan.go: what the steps of a translated plan are.
use airgate_openai.Base.{
  if◌then◌else◌, Option-cases, Bool-cases, if_true, if_false, Text, codes, is_empty, is_blank,
  is_text, ◌≡◌, refl, sym, ap, ◌∙◌, ◌⊎◌, inl, inr, Bool, true, false, Option, none, some, List, [],
  ◌∷◌, arith,
}
use mathlib.Core.Path.{subst}
use airgate_openai.Base.Json.{
  Json, null, bool, num, str, arr, obj, Items, nil, cons, Fields, end, field, field_at, string_of,
  is_string,
}
use airgate_openai.Basispoints.Plan.{
  plan_text_alias, alias_from, PlanError, no_description, bad_status, map_result, ◌>>>◌, require,
  pending, in_progress, completed, described, with_status, normalize_native_plan_status,
  translate_step, translate_steps,
}

pub inr_inj : {E A : Type 0} (a b : A) → Path (E ⊎ A) (inr a) (inr b) → a ≡ b
inr_inj {E = E} {A = A} a b h = ap (λ (o : E ⊎ A). elim o [ inl e ↦ a | inr x ↦ x ]) h

pub bind_inv :
    {E A B : Type 0} (m : E ⊎ A) (f : A → E ⊎ B) (b : B)
    → (m >>> f) ≡ inr b
    → (a : A) × (m ≡ inr a) × (f a ≡ inr b)
bind_inv (inl e) f b h = ground arith
bind_inv (inr a) f b h = (a, refl, h)

map_inv :
    {E A B : Type 0} (f : A → B) (m : E ⊎ A) (b : B)
    → map_result f m ≡ inr b
    → (a : A) × (m ≡ inr a) × (f a ≡ b)
map_inv f (inl e) b h = ground arith
map_inv f (inr a) b h = (a, refl, ground arith)

pub require_inv : (e : PlanError) (b : Bool) (u : Unit {0}) → require e b ≡ inr u → b ≡ true
require_inv e true u h = refl
require_inv e false u h = ground arith

-- A status that is not refused is one of the three of the client's schema.
status_cases :
    (s : Text)
    → (normalize_native_plan_status s ≡ [])
      ⊎ (normalize_native_plan_status s ≡ pending)
      ⊎ (normalize_native_plan_status s ≡ in_progress)
      ⊎ (normalize_native_plan_status s ≡ completed)
unfolding normalize_native_plan_status
status_cases s = ground arith

-- The fields hold the text under one of the keys.
abbrev pub IsUnder : Fields → Text → List Text → Type 0
IsUnder fs s [] = ⊥
IsUnder fs s (k ∷ ks) = (field_at k fs ≡ some (str s)) ⊎ IsUnder fs s ks

-- A step `w` for the client is the one of a native step `v`: under the client's keys the description,
-- not blank, that the native step has under one of its own, and the status as one of three.
abbrev pub IsStepOf : Json → Json → Type 0
IsStepOf v w =
    (fs : Fields) × (d : Text) × (s : Text) × (v ≡ obj fs)
    × (w ≡ obj (field (codes "step") (str d) (field (codes "status") (str s) end)))
    × IsUnder fs d (codes "step" ∷ codes "description" ∷ codes "title" ∷ [])
    × (is_blank d ≡ false)
    × (s ≡ normalize_native_plan_status (string_of (field_at (codes "status") fs)))
    × ((s ≡ pending) ⊎ (s ≡ in_progress) ⊎ (s ≡ completed))

-- Step for step.
abbrev pub AreStepsOf : Items → Items → Type 0
AreStepsOf nil nil = Unit
AreStepsOf (cons v vs) (cons w ws) = IsStepOf v w × AreStepsOf vs ws
AreStepsOf _ _ = ⊥

refused_alias : {A : Type 0} {x : A} → none ≡ some x → ⊥
refused_alias h = ground arith

alias_missing :
    (found : Option Text) (fs : Fields) (k : Text) (ks : List Text)
    → field_at k fs ≡ none
    → alias_from found fs (k ∷ ks) ≡ alias_from found fs ks
unfolding alias_from
alias_missing found fs k ks e = rw (e, alias_from) refl

alias_first :
    (fs : Fields) (k : Text) (ks : List Text) (t : Text)
    → field_at k fs ≡ some (str t)
    → alias_from none fs (k ∷ ks) ≡ alias_from (some t) fs ks
unfolding alias_from
alias_first fs k ks t e = rw (e, alias_from) refl

alias_again :
    (fs : Fields) (k : Text) (ks : List Text) (t u : Text)
    → field_at k fs ≡ some (str t)
    → alias_from (some u) fs (k ∷ ks) ≡ (if is_text u t then alias_from (some t) fs ks else none)
unfolding alias_from
alias_again fs k ks t u e = rw (e, alias_from) refl

alias_other :
    (found : Option Text) (fs : Fields) (k : Text) (ks : List Text) (v : Json)
    → field_at k fs ≡ some v
    → is_string (some v) ≡ false
    → alias_from found fs (k ∷ ks) ≡ none
unfolding alias_from
alias_other found fs k ks null e h = rw (e, alias_from) refl
alias_other found fs k ks (bool b) e h = rw (e, alias_from) refl
alias_other found fs k ks (num n) e h = rw (e, alias_from) refl
alias_other found fs k ks (str t) e h = ground arith
alias_other found fs k ks (arr vs) e h = rw (e, alias_from) refl
alias_other found fs k ks (obj gs) e h = rw (e, alias_from) refl

string_cases : (v : Json) → ((t : Text) × (v ≡ str t)) ⊎ (is_string (some v) ≡ false)
string_cases (str t) = inl (t, refl)
string_cases null = inr refl
string_cases (bool b) = inr refl
string_cases (num n) = inr refl
string_cases (arr vs) = inr refl
string_cases (obj fs) = inr refl

abbrev as_string : Option Text → Option Json
as_string none = none
as_string (some s) = some (str s)

found_at :
    (fs : Fields) (k : Text) (ks : List Text) (s t : Text)
    → field_at k fs ≡ some (str t)
    → (some t ≡ some s) ⊎ IsUnder fs s ks
    → IsUnder fs s (k ∷ ks)
found_at fs k ks s t e (inl q) = inl (e ∙ ap (λ (o : Option Text). as_string o) q)
found_at fs k ks s t e (inr u) = inr u

-- A text under the key is the one that goes on, where the alias is not refused.
found_text :
    (found : Option Text) (fs : Fields) (k : Text) (ks : List Text) (s t : Text)
    → field_at k fs ≡ some (str t)
    → alias_from found fs (k ∷ ks) ≡ some (some s)
    → alias_from (some t) fs ks ≡ some (some s)
found_text none fs k ks s t e h = sym (alias_first fs k ks t e) ∙ h
found_text (some u) fs k ks s t e h = elim (Bool-cases (is_text u t)) [
  | inl b ↦ sym (alias_again fs k ks t u e ∙ if_true _ _ b) ∙ h
  | inr b ↦ absurd (refused_alias (sym (alias_again fs k ks t u e ∙ if_false _ _ b) ∙ h))
]

-- What an alias finds is what it had, or stands under one of the keys.
alias_from-IsUnder :
    (found : Option Text) (fs : Fields) (keys : List Text) (s : Text)
    → alias_from found fs keys ≡ some (some s)
    → (found ≡ some s) ⊎ IsUnder fs s keys
unfolding alias_from
alias_from-IsUnder found fs [] s h = inl (ground arith)
alias_from-IsUnder found fs (k ∷ ks) s h = elim (Option-cases (field_at k fs)) [
  | inl e ↦ elim (alias_from-IsUnder found fs ks s (sym (alias_missing found fs k ks e) ∙ h)) [
    | inl q ↦ inl q
    | inr u ↦ inr (inr u)
  ]
  | inr (v, e) ↦ elim (string_cases v) [
    | inr n ↦ absurd (refused_alias (sym (alias_other found fs k ks v e n) ∙ h))
    | inl (t, q) ↦
        let at = e ∙ ap some q in
        let later = alias_from-IsUnder (some t) fs ks s in
        inr (found_at fs k ks s t at (later (found_text found fs k ks s t at h)))
  ]
]

pub refused_description :
    {A : Type 0} {e : PlanError} {d : A} → Path (PlanError ⊎ A) (inl e) (inr d) → ⊥
refused_description h = ground arith

described_inv :
    (o : Option (Option Text)) (d : Text)
    → described o ≡ inr d
    → (o ≡ some (some d)) × (is_blank d ≡ false)
described_inv none d h = ground arith
described_inv (some none) d h = ground arith
described_inv (some (some s)) d h = elim (Bool-cases (is_blank s)) [
  | inl b ↦ absurd (refused_description (sym (if_true (inl no_description) (inr s) b) ∙ h))
  | inr b ↦
      let e = inr_inj s d (sym (if_false (inl no_description) (inr s) b) ∙ h) in
      (ap (λ x. some (some x)) e, ap is_blank (sym e) ∙ b)
]

not_empty : (s : Text) → (s ≡ pending) ⊎ (s ≡ in_progress) ⊎ (s ≡ completed) → is_empty s ≡ false
not_empty s (inl e) = ap is_empty e
not_empty s (inr (inl e)) = ap is_empty e
not_empty s (inr (inr e)) = ap is_empty e

with_status_inv :
    (fs : Fields) (d s : Text) (w : Json)
    → with_status d (normalize_native_plan_status s) ≡ inr w
    → s ≡ string_of (field_at (codes "status") fs)
    → IsUnder fs d (codes "step" ∷ codes "description" ∷ codes "title" ∷ [])
    → is_blank d ≡ false
    → IsStepOf (obj fs) w
with_status_inv fs d s w h q u b = elim (status_cases s) [
  | inl e ↦ absurd (refused_description (sym (if_true (inl bad_status) _ (ap is_empty e)) ∙ h))
  | inr e ↦
      let s' = normalize_native_plan_status s in
      let is_made = sym (inr_inj _ w (sym (if_false (inl bad_status) _ (not_empty s' e)) ∙ h)) in
      (fs, d, s', refl, is_made, u, b, ap normalize_native_plan_status q, e)
]

pub named_alias :
    (fs : Fields) (keys : List Text) (s : Text)
    → plan_text_alias fs keys ≡ some (some s)
    → IsUnder fs s keys
unfolding plan_text_alias
named_alias fs keys s h = elim (alias_from-IsUnder none fs keys s h) [
  | inl e ↦ absurd (refused_alias e)
  | inr u ↦ u
]

translate_step-IsStepOf : (v w : Json) → translate_step v ≡ inr w → IsStepOf v w
unfolding translate_step
translate_step-IsStepOf (obj fs) w h =
    let (d, e, g) = bind_inv _ _ w h in
    let (a, b) = described_inv _ d e in with_status_inv fs d _ w g refl (named_alias fs _ d a) b
translate_step-IsStepOf null w h = absurd (refused_description h)
translate_step-IsStepOf (bool b) w h = absurd (refused_description h)
translate_step-IsStepOf (num n) w h = absurd (refused_description h)
translate_step-IsStepOf (str s) w h = absurd (refused_description h)
translate_step-IsStepOf (arr vs) w h = absurd (refused_description h)

-- The steps are those of the native ones, step for step.
pub translate_steps_lem : (vs ws : Items) → translate_steps vs ≡ inr ws → AreStepsOf vs ws
unfolding translate_steps
translate_steps_lem nil ws h = let e = inr_inj nil ws h in subst (AreStepsOf nil) e tt
translate_steps_lem (cons v vs) ws h =
    let (w, e, g) = bind_inv (translate_step v) _ ws h in
    let (us, i, j) = map_inv (cons w) (translate_steps vs) ws g in
    subst (AreStepsOf (cons v vs)) j (translate_step-IsStepOf v w e, translate_steps_lem vs us i)
