-- ===== src/Basispoints/Sound/Steps.antt =====
-- The steps of a call, past the removal of idle elements.
use airgate_openai.Base.{
  Option-cases, All-append, Text, Text-discrete, get, delete, get-delete_self, ℕ, suc, ◌-◌, ◌≤◌,
  ◌≡◌, refl, sym, ap, ◌∙◌, inl, inr, none, some, [], ◌∷◌, ◌++◌, arith,
}
use mathlib.Core.Path.{subst}
use airgate_openai.Basispoints.Elements.{
  Entry, Order, Elements, element_at, remove_at, remove, remove_key, touch, push_back, evict,
  enough,
}
use airgate_openai.Basispoints.Order.{
  element_at_later, length-remove_at, address_of, WellFormed, element_at-address_of,
}
use airgate_openai.Basispoints.Kept.{
  address_of_self, Kept, remove-Kept, remove_present, touch-Kept, push_back-Kept, touch_present,
}
use airgate_openai.Basispoints.Loops.{Sorted, LastIs, Expired, evict-Evicted}
use airgate_openai.Basispoints.Sound.{
  Sound, Past, All-drop, Sorted-append, Sorted-remove_at, All-remove_at, Past-later, found_before,
}

module _ {P : Type 0} (m b : ℕ) where
  -- The element of a key that the map has.
  pub found :
      (s : Elements P) (key : Text) (a : ℕ)
      → Kept s
      → get Text-discrete key s.entries ≡ some a
      → (e : Entry P) × (element_at a s.order ≡ some e) × (e.key ≡ key)
  found s key a k h =
      let (e, g, p, l) =
        element_at-address_of s.next a key s.order k.well_formed (sym (k.leads key) ∙ h) in
      (e, g, p)

  remove_key_present :
      (key : Text) (a : ℕ) (s : Elements P)
      → get Text-discrete key s.entries ≡ some a
      → remove_key key s ≡ remove a s
  unfolding remove_key
  remove_key_present key a s h = ground arith

  remove_key_absent :
      (key : Text) (s : Elements P) → get Text-discrete key s.entries ≡ none → remove_key key s ≡ s
  unfolding remove_key
  remove_key_absent key s h = ground arith

  remove-Sound :
      (now a : ℕ) (s : Elements P) (e : Entry P)
      → element_at a s.order ≡ some e
      → Sound m b now s
      → Sound m b now (record s {
        entries = delete Text-discrete e.key s.entries;
        bytes = s.bytes - e.weight;
        order = remove_at a s.order;
      })
  remove-Sound now a s e g k =
      let q = remove-Kept a s e k.kept g in
      let r = subst Kept (remove_present a s e g) q in
      record {
        kept = r;
        sorted = Sorted-remove_at 0 a s.order k.sorted;
        past = All-remove_at _ a s.order k.past;
        few =
            (let x = r.as_many in
              let y = k.kept.as_many in
              let z = length-remove_at a s.order e g in let w = k.few in omega arith);
        small = (let x = k.small in omega (arith, x));
      }

  -- Without the key, all that holds still holds.
  pub remove_key-Sound :
      (now : ℕ) (key : Text) (s : Elements P)
      → Sound m b now s
      → Sound m b now (remove_key key s) × (get Text-discrete key (remove_key key s).entries ≡ none)
  remove_key-Sound now key s k = elim (Option-cases (get Text-discrete key s.entries)) [
    | inl e ↦
        let q = remove_key_absent key s e in
        (
          subst (Sound m b now) (sym q) k,
          ap (λ (t : Elements P). get Text-discrete key t.entries) q ∙ e,
        )
    | inr (a, h) ↦
        let (e, g, p) = found s key a k.kept h in
        let q = remove_key_present key a s h ∙ remove_present a s e g in
        (
          subst (Sound m b now) (sym q) (remove-Sound now a s e g k),
          ap (λ (t : Elements P). get Text-discrete key t.entries) q
              ∙ ap (λ k. get Text-discrete key (delete Text-discrete k s.entries)) p
              ∙ get-delete_self Text-discrete key s.entries,
        )
  ]

  pub touch-Sound :
      (t now a : ℕ) (s : Elements P) (e : Entry P)
      → t ≤ now
      → element_at a s.order ≡ some e
      → Sound m b t s
      → Sound m b now (touch now a s)
  touch-Sound t now a s e l h k =
      let q = touch-Kept now a s e k.kept h in
      let r = touch_present now a s e h in
      let w = subst Kept r q in
      let past = Past-later t now _ l (All-remove_at _ a s.order k.past) in
      let e' = record e { used = now } in
      subst (Sound m b now) (sym r) (record {
        kept = w;
        sorted =
            Sorted-append 0 now a e' _ refl (omega arith) past
              (Sorted-remove_at 0 a s.order k.sorted);
        past = All-append _ (remove_at a s.order) _ past (omega arith, tt);
        few = k.few;
        small = k.small;
      })

  LastIs-append : (x : ℕ × Entry P) (o : Order P) → LastIs x (o ++ x ∷ [])
  LastIs-append x [] = refl
  LastIs-append x (y ∷ []) = refl
  LastIs-append x (y ∷ z ∷ o) = LastIs-append x (z ∷ o)

  element_at-LastIs :
      (n : ℕ) (x : ℕ × Entry P) (o : Order P)
      → WellFormed n o
      → LastIs x o
      → element_at x.0 o ≡ some x.1
  unfolding element_at
  element_at-LastIs n x [] w l = absurd l
  element_at-LastIs n x (y ∷ []) w l =
      let p = ap (λ (q : ℕ × Entry P). q.0) l in
      let q = ap (λ (q : ℕ × Entry P). q.1) l in ground arith
  element_at-LastIs n x (y ∷ z ∷ o) w l =
      element_at_later y.0 x.0 y.1 x.1 (z ∷ o) w.1 (element_at-LastIs n x (z ∷ o) w.3 l)

  -- An entry whose key is new, put at the end, leaves a sound state behind, and stays if it fits.
  pub evict-Sound :
      (now : ℕ) (e : Entry P) (s : Elements P)
      → e.used ≡ now
      → get Text-discrete e.key s.entries ≡ none
      → Sound m b now s
      → (r : Elements P) × (evict m b (enough (push_back e s)) (push_back e s) ≡ some r)
        × Sound m b now r
        × (r.next ≡ suc s.next)
        × (1 ≤ m
            → e.weight ≤ b
            → (get Text-discrete e.key r.entries ≡ some s.next)
              × (element_at s.next r.order ≡ some e))
  unfolding push_back
  evict-Sound now e s u h k =
      let t = push_back e s in
      let kt = push_back-Kept e s k.kept h in
      let st : Sorted 0 t.order =
        Sorted-append 0 now s.next e s.order u (omega arith) k.past k.sorted in
      let (r, g, p) = evict-Evicted m b (enough t) 0 t (omega arith) kt st in
      let (n, d) = p.suffix in
      (
        r,
        g,
        record {
          kept = p.kept;
          sorted = p.sorted;
          past =
              subst (Past now) (sym d)
                (All-drop _ n t.order (All-append _ s.order _ k.past (omega (arith, u), tt)));
          few = p.few;
          small = p.small;
        },
        p.same_next,
        λ one fits.
            let v =
              element_at-LastIs r.next (s.next, e) r.order p.kept.well_formed
                (p.last (s.next, e) one fits (LastIs-append (s.next, e) s.order)) in
            (p.kept.leads e.key ∙ address_of_self r.next s.next r.order e p.kept.well_formed v, v),
      )

  -- A key that the map lacks is not there after idle elements are gone.
  pub still_gone :
      (now : ℕ) (key : Text) (s r : Elements P)
      → Kept s
      → Kept r
      → Expired now 0 s r
      → get Text-discrete key s.entries ≡ none
      → get Text-discrete key r.entries ≡ none
  still_gone now key s r k kr x h = elim (Option-cases (get Text-discrete key r.entries)) [
    | inl g ↦ g
    | inr (a, g) ↦
        let (e, u, p) = found r key a kr g in
        let v = (found_before now a s r e k x u).0 in
        let w =
          subst (λ j. address_of j s.order ≡ some a) p
            (address_of_self s.next a s.order e k.well_formed v) in
        let z = sym (k.leads key) ∙ h in ground arith
  ]
