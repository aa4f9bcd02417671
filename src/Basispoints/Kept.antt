-- ===== src/Basispoints/Kept.antt =====
-- What every operation on the elements keeps, and that its loops end.
use airgate_openai.Base.{
  length, length-append, Text, Text-discrete, get, delete, Distinct, get-put, get-delete,
  put-Distinct, delete-Distinct, length-put_new, length-delete, ℕ, suc, ◌+◌, ◌-◌, ◌<◌, ◌≡◌, refl,
  sym, ap, ◌∙◌, ◌⊎◌, inl, inr, ite, if_pos, if_neg, none, some, [], ◌∷◌, ◌++◌, arith,
}
use mathlib.Core.Path.{subst}
use airgate_openai.Basispoints.Elements.{
  Entry, Order, Elements, empty_elements, element_at, remove_at, remove, touch, push_back,
}
use airgate_openai.Basispoints.Order.{
  address_of, weights, WellFormed, element_at-none, WellFormed-weaken, address_of-remove_at,
  weights-remove_at, length-remove_at, address_of-append, weights-append, WellFormed-remove_at,
  WellFormed-append,
}

-- The map leads each key to the element that has it and has no other key, the bytes are the sum of the
-- weights, and each address was given once.
pub record Kept {P : Type 0} (s : Elements P) : Type 0 where
  pub leads : (k : Text) → get Text-discrete k s.entries ≡ address_of k s.order
  pub distinct : Distinct Text-discrete s.entries
  pub as_many : length s.entries ≡ length s.order
  pub sums : s.bytes ≡ weights s.order
  pub well_formed : WellFormed s.next s.order

module _ {P : Type 0} where
  pub empty_elements-Kept : Kept (empty_elements {P = P})
  unfolding get
  empty_elements-Kept = record {
    leads = λ k. refl;
    distinct = tt;
    as_many = refl;
    sums = refl;
    well_formed = tt;
  }

  pub remove_present :
      (a : ℕ) (s : Elements P) (e : Entry P)
      → element_at a s.order ≡ some e
      → remove a s ≡ record s {
        entries = delete Text-discrete e.key s.entries;
        bytes = s.bytes - e.weight;
        order = remove_at a s.order;
      }
  unfolding remove
  remove_present a s e h = ground arith

  pub element_at_cases :
      (a c : ℕ) (d e : Entry P) (o : Order P)
      → element_at a ((c, d) ∷ o) ≡ some e
      → ((a ≡ c) × (d ≡ e)) ⊎ (element_at a o ≡ some e)
  unfolding element_at
  element_at_cases a c d e o h = ground arith

  pub address_of_self :
      (n a : ℕ) (o : Order P) (e : Entry P)
      → WellFormed n o
      → element_at a o ≡ some e
      → address_of e.key o ≡ some a
  unfolding element_at
  address_of_self n a [] e w h = ground arith
  address_of_self n a ((c, d) ∷ o) e w h = elim (element_at_cases a c d e o h) [
    | inl (p, q) ↦ if_pos (Text-discrete d.key e.key) (ap (λ x. x.key) q) _ _ ∙ ap some (sym p)
    | inr g ↦
        let q = address_of_self n a o e w.3 g in
        elim (Text-discrete d.key e.key) [
          | yes p ↦ let r = subst (λ k. address_of k o ≡ none) p w.2 in ground arith
          | no p ↦ if_neg (Text-discrete d.key e.key) p _ _ ∙ q
        ]
  ]

  pub element_at-removed :
      (n a : ℕ) (o : Order P) → WellFormed n o → element_at a (remove_at a o) ≡ none
  unfolding element_at remove_at
  element_at-removed n a [] w = refl
  element_at-removed n a ((c, d) ∷ o) w = ground (arith, element_at-removed n a o w.3)

  address_of-removed :
      (n a : ℕ) (o : Order P) (e : Entry P)
      → WellFormed n o
      → element_at a o ≡ some e
      → address_of e.key (remove_at a o) ≡ none
  address_of-removed n a o e w h =
      address_of-remove_at a e.key o e n h w ∙ if_pos (Text-discrete e.key e.key) refl _ _

  bounded : (n a : ℕ) (o : Order P) (e : Entry P) → WellFormed n o → element_at a o ≡ some e → a < n
  unfolding element_at
  bounded n a [] e w h = ground arith
  bounded n a ((c, d) ∷ o) e w h = ground (arith, bounded n a o e)

  pub remove-Kept :
      (a : ℕ) (s : Elements P) (e : Entry P)
      → Kept s
      → element_at a s.order ≡ some e
      → Kept (remove a s)
  remove-Kept a s e k h = subst Kept (sym (remove_present a s e h)) (record {
    leads = λ j.
        get-delete Text-discrete j e.key s.entries
        ∙ ap (ite (Text-discrete e.key j) none) (k.leads j)
        ∙ sym (address_of-remove_at a j s.order e s.next h k.well_formed);
    distinct = delete-Distinct Text-discrete e.key s.entries k.distinct;
    as_many =
        (let x =
            length-delete Text-discrete e.key a s.entries k.distinct
              (k.leads e.key ∙ address_of_self s.next a s.order e k.well_formed h) in
          let y = length-remove_at a s.order e h in let z = k.as_many in omega arith);
    sums = (let x = k.sums in let y = weights-remove_at a s.order e h in omega arith);
    well_formed = WellFormed-remove_at s.next a s.order e h k.well_formed;
  })

  pub push_back-Kept :
      (e : Entry P) (s : Elements P)
      → Kept s
      → get Text-discrete e.key s.entries ≡ none
      → Kept (push_back e s)
  unfolding push_back
  push_back-Kept e s k h =
      let o = s.order in
      let x = element_at-none s.next o k.well_formed in
      let y = sym (k.leads e.key) ∙ h in
      record {
        leads = λ j.
            get-put Text-discrete j e.key s.next s.entries
            ∙ ap (ite (Text-discrete e.key j) (some s.next)) (k.leads j)
            ∙ sym (address_of-append j s.next e o y);
        distinct = put-Distinct Text-discrete e.key s.next s.entries k.distinct;
        as_many =
            length-put_new Text-discrete e.key s.next s.entries h
            ∙ ap (λ n. n + 1) k.as_many
            ∙ sym (length-append o ((s.next, e) ∷ []));
        sums = ap (λ n. n + e.weight) k.sums ∙ sym (weights-append s.next e o);
        well_formed =
            WellFormed-append (suc s.next) s.next e o (omega arith) x y
              (WellFormed-weaken s.next o k.well_formed);
      }

  pub touch_present :
      (now a : ℕ) (s : Elements P) (e : Entry P)
      → element_at a s.order ≡ some e
      → touch now a s
        ≡ record s { order = remove_at a s.order ++ (a, record e { used = now }) ∷ [] }
  unfolding touch
  touch_present now a s e h = ground arith

  same_address :
      (a : ℕ) (o : Order P) (e : Entry P) (n : ℕ) (j : Text)
      → WellFormed n o
      → element_at a o ≡ some e
      → address_of j o ≡ ite (Text-discrete e.key j) (some a) (address_of j (remove_at a o))
  same_address a o e n j w h = elim (Text-discrete e.key j) [
    | yes p ↦
        subst (λ k. address_of k o ≡ some a) p (address_of_self n a o e w h)
        ∙ sym (if_pos (Text-discrete e.key j) p _ _)
    | no p ↦
        sym (if_neg (Text-discrete e.key j) p _ _)
        ∙ sym (address_of-remove_at a j o e n h w)
        ∙ sym (if_neg (Text-discrete e.key j) p _ _)
  ]

  pub touch-Kept :
      (now a : ℕ) (s : Elements P) (e : Entry P)
      → Kept s
      → element_at a s.order ≡ some e
      → Kept (touch now a s)
  touch-Kept now a s e k h =
      let o = remove_at a s.order in
      let w = WellFormed-remove_at s.next a s.order e h k.well_formed in
      let x = element_at-removed s.next a s.order k.well_formed in
      let y = address_of-removed s.next a s.order e k.well_formed h in
      let e' = record e { used = now } in
      subst Kept (sym (touch_present now a s e h)) (record {
        leads = λ j.
            k.leads j
            ∙ same_address a s.order e s.next j k.well_formed h
            ∙ sym (address_of-append j a e' o y);
        distinct = k.distinct;
        as_many =
            k.as_many ∙ sym (length-remove_at a s.order e h) ∙ sym (length-append o ((a, e') ∷ []));
        sums = k.sums ∙ sym (weights-remove_at a s.order e h) ∙ sym (weights-append a e' o);
        well_formed =
            WellFormed-append s.next a e' o (bounded s.next a s.order e k.well_formed h) x y w;
      })
