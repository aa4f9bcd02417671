-- ===== src/Basispoints/Sound.antt =====
-- What holds of either cache between its calls, and that the steps of a call keep it.
pub mod Steps
use airgate_openai.Base.{
  Option-cases, length, drop, All, All-append, Text, Text-discrete, get, delete, get-delete_self, ℕ,
  zero, suc, ◌-◌, ◌≤◌, ◌<◌, ◌≡◌, refl, sym, ap, ◌∙◌, ◌⊎◌, inl, inr, none, some, [], ◌∷◌, ◌++◌,
  arith,
}
use mathlib.Core.Path.{subst}
use airgate_openai.Basispoints.Elements.{
  Entry, Order, Elements, empty_elements, replay_cache_idle_ttl, element_at, remove_at, remove,
  remove_key, expire, touch, push_back, evict, enough,
}
use airgate_openai.Basispoints.Order.{
  element_at_later, length-remove_at, address_of, weights, WellFormed, element_at-address_of,
}
use airgate_openai.Basispoints.Kept.{
  element_at_cases, address_of_self, Kept, remove-Kept, remove_present, touch-Kept, push_back-Kept,
  empty_elements-Kept, touch_present,
}
use airgate_openai.Basispoints.Loops.{
  Sorted-weaken, Sorted, LastIs, Expired, expire-Expired, evict-Evicted,
}

-- The elements hang together, stand in the order of their use, which is over by `now`, and fit.
pub record Sound {P : Type 0} (max_entries max_bytes now : ℕ) (s : Elements P) : Type 0 where
  pub kept : Kept s
  pub sorted : Sorted 0 s.order
  pub past : All (λ (x : ℕ × Entry P). x.1.used ≤ now) s.order
  pub few : length s.entries ≤ max_entries
  pub small : s.bytes ≤ max_bytes

module _ {P : Type 0} where
  abbrev pub Past : ℕ → Order P → Type 0
  Past now o = All (λ x. x.1.used ≤ now) o

  All-drop {κ} : (Q : ℕ × Entry P → Type κ) (n : ℕ) (o : Order P) → All Q o → All Q (drop n o)
  All-drop Q zero o h = h
  All-drop Q (suc n) [] h = tt
  All-drop Q (suc n) (x ∷ o) h = All-drop Q n o h.1

  length-drop : (n : ℕ) (o : Order P) → length (drop n o) ≤ length o
  length-drop zero o = omega arith
  length-drop (suc n) [] = omega arith
  length-drop (suc n) (x ∷ o) = let h = length-drop n o in omega (arith, h)

  weights-drop : (n : ℕ) (o : Order P) → weights (drop n o) ≤ weights o
  weights-drop zero o = omega arith
  weights-drop (suc n) [] = omega arith
  weights-drop (suc n) (x ∷ o) = let h = weights-drop n o in omega (arith, h)

  Sorted-append :
      (t now a : ℕ) (e : Entry P) (o : Order P)
      → e.used ≡ now
      → t ≤ now
      → Past now o
      → Sorted t o
      → Sorted t (o ++ (a, e) ∷ [])
  Sorted-append t now a e [] u l p s = (omega (arith, l, u), tt)
  Sorted-append t now a e (x ∷ o) u l p s = (s.0, Sorted-append x.1.used now a e o u p.0 p.1 s.1)

  remove_at_cases :
      (a : ℕ) (x : ℕ × Entry P) (o : Order P)
      → (remove_at a (x ∷ o) ≡ o) ⊎ (remove_at a (x ∷ o) ≡ x ∷ remove_at a o)
  unfolding remove_at
  remove_at_cases a x o = ground arith

  Sorted-remove_at : (t a : ℕ) (o : Order P) → Sorted t o → Sorted t (remove_at a o)
  unfolding remove_at
  Sorted-remove_at t a [] s = tt
  Sorted-remove_at t a (x ∷ o) s = elim (remove_at_cases a x o) [
    | inl e ↦ subst (Sorted t) (sym e) (Sorted-weaken t x.1.used o s.0 s.1)
    | inr e ↦ subst (Sorted t) (sym e) (s.0, Sorted-remove_at x.1.used a o s.1)
  ]

  All-remove_at {κ} :
      (Q : ℕ × Entry P → Type κ) (a : ℕ) (o : Order P) → All Q o → All Q (remove_at a o)
  unfolding remove_at
  All-remove_at Q a [] h = tt
  All-remove_at Q a (x ∷ o) h = elim (remove_at_cases a x o) [
    | inl e ↦ subst (All Q) (sym e) h.1
    | inr e ↦ subst (All Q) (sym e) (h.0, All-remove_at Q a o h.1)
  ]

  pub Past-later : (now later : ℕ) (o : Order P) → now ≤ later → Past now o → Past later o
  Past-later now later [] l p = tt
  Past-later now later (x ∷ o) l p = (omega (arith, l, p.0), Past-later now later o l p.1)

  element_at-All :
      (Q : ℕ × Entry P → Type 0) (a : ℕ) (e : Entry P) (o : Order P)
      → All Q o
      → element_at a o ≡ some e
      → (b : ℕ) × Q (b, e)
  unfolding element_at
  element_at-All Q a e [] h g = ground arith
  element_at-All Q a e (x ∷ o) h g = elim (element_at_cases a x.0 x.1 e o g) [
    | inl (p, q) ↦ (x.0, subst (λ d. Q (x.0, d)) q h.0)
    | inr f ↦ element_at-All Q a e o h.1 f
  ]

  element_at-drop :
      (w n a : ℕ) (e : Entry P) (o : Order P)
      → WellFormed w o
      → element_at a (drop n o) ≡ some e
      → element_at a o ≡ some e
  element_at-drop w zero a e o k h = h
  element_at-drop w (suc n) a e [] k h = h
  element_at-drop w (suc n) a e (x ∷ o) k h =
      element_at_later x.0 a x.1 e o k.1 (element_at-drop w n a e o k.3 h)

  -- What is found after idle elements are gone was there before, and did not idle.
  pub found_before :
      (now a : ℕ) (s r : Elements P) (e : Entry P)
      → Kept s
      → Expired now 0 s r
      → element_at a r.order ≡ some e
      → (element_at a s.order ≡ some e) × (now - e.used < replay_cache_idle_ttl)
  found_before now a s r e k x h =
      let (n, d) = x.suffix in
      (
        element_at-drop s.next n a e s.order k.well_formed (sym (ap (element_at a) d) ∙ h),
        (element_at-All _ a e r.order x.fresh h).1,
      )

  module _ (m b : ℕ) where
    pub empty_elements-Sound : (now : ℕ) → Sound m b now (empty_elements {P = P})
    empty_elements-Sound now = record {
      kept = empty_elements-Kept;
      sorted = tt;
      past = tt;
      few = omega arith;
      small = omega arith;
    }

    pub Sound-later : (t now : ℕ) (s : Elements P) → t ≤ now → Sound m b t s → Sound m b now s
    Sound-later t now s l k = record {
      kept = k.kept;
      sorted = k.sorted;
      past = Past-later t now s.order l k.past;
      few = k.few;
      small = k.small;
    }

    -- After idle elements are gone: none idled too long.
    pub expire-Sound :
        (t now : ℕ) (s : Elements P)
        → t ≤ now
        → Sound m b t s
        → (r : Elements P) × (expire (enough s) now s ≡ some r)
          × Sound m b now r
          × Expired now 0 s r
    expire-Sound t now s l k =
        let (r, g, p) = expire-Expired (enough s) now 0 s (omega arith) k.kept k.sorted in
        let (n, e) = p.suffix in
        (
          r,
          g,
          record {
            kept = p.kept;
            sorted = p.sorted;
            past = subst (Past now) (sym e) (Past-later t now _ l (All-drop _ n s.order k.past));
            few =
                (let x = p.kept.as_many in
                  let y = k.kept.as_many in
                  let z = length-drop n s.order in
                  let w = ap length e in let v = k.few in omega arith);
            small =
                (let x = p.kept.sums in
                  let y = k.kept.sums in
                  let z = weights-drop n s.order in
                  let w = ap weights e in let v = k.small in omega arith);
          },
          p,
        )
