-- ===== src/Continuation/Recode.antt =====
-- continuation_recovery.go: what `json.Unmarshal` into a map and `json.Marshal` after it make of a body.
-- A number becomes a float64 and is written again in its shortest form: that is the parameter `float`
-- on its literal, `none` where the number is out of range and the decoding fails. All else keeps its
-- value.
use airgate_openai.Base.{
  ◌>>=◌, Text, ◌≡◌, refl, sym, ap, ◌∙◌, ite, Text-discrete, Option, none, some, arith,
}
use mathlib.Core.Path.{subst, ap₂}
use airgate_openai.Base.Json.{
  Json, null, bool, num, str, arr, obj, Items, nil, cons, Fields, end, field, field_at,
  remove_field, is_present,
}

some_inj : {A : Type 0} (a b : A) → some a ≡ some b → a ≡ b
some_inj {A = A} a b h = ap (λ (o : Option A). elim o [ none ↦ a | some x ↦ x ]) h

refused : {A : Type 0} {a : A} → none ≡ some a → ⊥
refused h = ground arith

module _ (float : Text → Option Text) where
  unfoldable mutual
    pub recode : Json → Option Json
    recode null = some null
    recode (bool b) = some (bool b)
    recode (num n) = float n >>= λ m. some (num m)
    recode (str s) = some (str s)
    recode (arr vs) = recode_items vs >>= λ ws. some (arr ws)
    recode (obj fs) = recode_fields fs >>= λ gs. some (obj gs)

    pub recode_items : Items → Option Items
    recode_items nil = some nil
    recode_items (cons v vs) = recode v >>= λ w. recode_items vs >>= λ ws. some (cons w ws)

    pub recode_fields : Fields → Option Fields
    recode_fields end = some end
    recode_fields (field k v fs) = recode v >>= λ w. recode_fields fs >>= λ gs. some (field k w gs)

  abbrev Fixed : Json → Type 0
  Fixed v = recode v ≡ some v

  abbrev FixedItems : Items → Type 0
  FixedItems vs = recode_items vs ≡ some vs

  abbrev FixedFields : Fields → Type 0
  FixedFields fs = recode_fields fs ≡ some fs

  bind_some :
      {A B : Type 0} (m : Option A) (f : A → Option B) (b : B)
      → (m >>= f) ≡ some b
      → (a : A) × (m ≡ some a) × (f a ≡ some b)
  bind_some none f b h = absurd (refused h)
  bind_some (some a) f b h = (a, refl, h)

  -- What a decoded object is made of.
  recode_field-inverse :
      (j : Text) (v : Json) (fs hs : Fields)
      → recode_fields (field j v fs) ≡ some hs
      → (w : Json) × (gs : Fields) × (recode v ≡ some w)
        × (recode_fields fs ≡ some gs)
        × (field j w gs ≡ hs)
  unfolding recode_fields
  recode_field-inverse j v fs hs h =
      let (w, a, g) = bind_some (recode v) _ hs h in
      let (gs, b, e) = bind_some (recode_fields fs) _ hs g in
      (w, gs, a, b, some_inj (field j w gs) hs e)

  chosen :
      {P : Type 0} (d : Dec P) (v w : Json) (x y : Option Json)
      → recode v ≡ some w
      → x ≡ (y >>= recode)
      → ite d (some w) x ≡ (ite d (some v) y >>= recode)
  chosen (yes p) v w x y a e = sym a
  chosen (no n) v w x y a e = e

  taken_out :
      {P : Type 0} (d : Dec P) (k : Text) (v w : Json) (xs ys : Fields)
      → recode v ≡ some w
      → recode_fields xs ≡ some ys
      → recode_fields (ite d xs (field k v xs)) ≡ some (ite d ys (field k w ys))
  unfolding recode_fields
  taken_out (yes p) k v w xs ys a b = b
  taken_out (no n) k v w xs ys a b = ap₂ (λ o p. o >>= λ x. p >>= λ us. some (field k x us)) a b

  -- A member of the map is that of the body, decoded.
  pub field_at-recode_fields :
      (k : Text) (fs gs : Fields)
      → recode_fields fs ≡ some gs
      → field_at k gs ≡ (field_at k fs >>= recode)
  unfolding field_at recode_fields
  field_at-recode_fields k end gs h = ap (field_at k) (sym (some_inj end gs h))
  field_at-recode_fields k (field j v fs) hs h =
      let (w, gs, a, b, e) = recode_field-inverse j v fs hs h in
      let rest = field_at-recode_fields k fs gs b in
      ap (field_at k) (sym e)
      ∙ chosen (Text-discrete j k) v w (field_at k gs) (field_at k fs) a rest

  chosen_present :
      {P : Type 0} (d : Dec P) (v w : Json) (x y : Option Json)
      → is_present x ≡ is_present y
      → is_present (ite d (some w) x) ≡ is_present (ite d (some v) y)
  chosen_present (yes p) v w x y e = refl
  chosen_present (no n) v w x y e = e

  -- The map has the keys of the body.
  pub is_present-recode_fields :
      (k : Text) (fs gs : Fields)
      → recode_fields fs ≡ some gs
      → is_present (field_at k gs) ≡ is_present (field_at k fs)
  unfolding field_at recode_fields
  is_present-recode_fields k end gs h =
      ap (λ x. is_present (field_at k x)) (sym (some_inj end gs h))
  is_present-recode_fields k (field j v fs) hs h =
      let (w, gs, a, b, e) = recode_field-inverse j v fs hs h in
      let rest = is_present-recode_fields k fs gs b in
      ap (λ x. is_present (field_at k x)) (sym e)
      ∙ chosen_present (Text-discrete j k) v w (field_at k gs) (field_at k fs) rest

  -- To take a field out before the decoding or after it is the same.
  pub recode_fields-remove_field :
      (k : Text) (fs gs : Fields)
      → recode_fields fs ≡ some gs
      → recode_fields (remove_field k fs) ≡ some (remove_field k gs)
  unfolding remove_field recode_fields
  recode_fields-remove_field k end gs h = ap (λ x. some (remove_field k x)) (some_inj end gs h)
  recode_fields-remove_field k (field j v fs) hs h =
      let (w, gs, a, b, e) = recode_field-inverse j v fs hs h in
      let rest = recode_fields-remove_field k fs gs b in
      taken_out (Text-discrete j k) j v w (remove_field k fs) (remove_field k gs) a rest
      ∙ ap (λ x. some (remove_field k x)) e

  -- Where the shortest form of a number is again its own shortest form, decoding twice is decoding once.
  module _ (again : (l m : Text) → float l ≡ some m → float m ≡ some m) where
    mutual
      unfolding recode recode_items recode_fields

      pub recode_again : (v w : Json) → recode v ≡ some w → recode w ≡ some w
      recode_again null w h = subst Fixed (some_inj null w h) refl
      recode_again (bool b) w h = subst Fixed (some_inj (bool b) w h) refl
      recode_again (str s) w h = subst Fixed (some_inj (str s) w h) refl
      recode_again (num n) w h =
          let (m, a, e) = bind_some (float n) _ w h in
          subst Fixed (some_inj (num m) w e) (ap (λ o. o >>= λ l. some (num l)) (again n m a))
      recode_again (arr vs) w h =
          let (ws, a, e) = bind_some (recode_items vs) _ w h in
          subst Fixed (some_inj (arr ws) w e)
            (ap (λ o. o >>= λ us. some (arr us)) (recode_items_again vs ws a))
      recode_again (obj fs) w h =
          let (gs, a, e) = bind_some (recode_fields fs) _ w h in
          subst Fixed (some_inj (obj gs) w e)
            (ap (λ o. o >>= λ us. some (obj us)) (recode_fields_again fs gs a))

      pub recode_items_again :
          (vs ws : Items) → recode_items vs ≡ some ws → recode_items ws ≡ some ws
      recode_items_again nil ws h = subst FixedItems (some_inj nil ws h) refl
      recode_items_again (cons v vs) us h =
          let (w, a, g) = bind_some (recode v) _ us h in
          let (ws, b, e) = bind_some (recode_items vs) _ us g in
          subst FixedItems (some_inj (cons w ws) us e) (
            ap₂ (λ o p. o >>= λ x. p >>= λ xs. some (cons x xs)) (recode_again v w a)
              (recode_items_again vs ws b))

      pub recode_fields_again :
          (fs gs : Fields) → recode_fields fs ≡ some gs → recode_fields gs ≡ some gs
      recode_fields_again end gs h = subst FixedFields (some_inj end gs h) refl
      recode_fields_again (field k v fs) us h =
          let (w, a, g) = bind_some (recode v) _ us h in
          let (gs, b, e) = bind_some (recode_fields fs) _ us g in
          subst FixedFields (some_inj (field k w gs) us e) (
            ap₂ (λ o p. o >>= λ x. p >>= λ xs. some (field k x xs)) (recode_again v w a)
              (recode_fields_again fs gs b))
