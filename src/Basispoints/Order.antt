-- ===== src/Basispoints/Order.antt =====
-- The list of elements, taken alone: what becomes of it when an element leaves it or comes to its end.
use airgate_openai.Base.{
  ◌==◌, if◌then◌else◌, length, Text, Text-discrete, ℕ, suc, ◌+◌, ◌<◌, ◌≡◌, refl, sym, ap, ◌∙◌, ◌≢◌,
  ite, if_pos, if_neg, Option, none, some, [], ◌∷◌, ◌++◌, arith,
}
use mathlib.Core.Path.{subst}
use airgate_openai.Basispoints.Elements.{Entry, Order, element_at, remove_at}

module _ {P : Type 0} where
  -- The address of the element with a key.
  abbrev pub address_of : Text → Order P → Option ℕ
  address_of k [] = none
  address_of k ((a, e) ∷ o) = ite (Text-discrete e.key k) (some a) (address_of k o)

  abbrev pub weights : Order P → ℕ
  weights [] = 0
  weights ((a, e) ∷ o) = e.weight + weights o

  -- The addresses are given before `n`, and no address and no key comes twice.
  abbrev pub WellFormed : ℕ → Order P → Type 0
  WellFormed n [] = Unit
  WellFormed n ((a, e) ∷ o) =
      (a < n) × (element_at a o ≡ none) × (address_of e.key o ≡ none) × WellFormed n o

  pub element_at-none : (n : ℕ) (o : Order P) → WellFormed n o → element_at n o ≡ none
  unfolding element_at
  element_at-none n [] w = refl
  element_at-none n ((a, e) ∷ o) w = ground (arith, element_at-none n o w.3)

  pub WellFormed-weaken : (n : ℕ) (o : Order P) → WellFormed n o → WellFormed (suc n) o
  WellFormed-weaken n [] w = tt
  WellFormed-weaken n ((a, e) ∷ o) w = (omega (arith, w.0), w.1, w.2, WellFormed-weaken n o w.3)

  pub address_of-none :
      (k : Text) (a : ℕ) (e : Entry P) (o : Order P)
      → address_of k ((a, e) ∷ o) ≡ none
      → (e.key ≢ k) × (address_of k o ≡ none)
  address_of-none k a e o h = (
    λ p. ground (arith, if_pos (Text-discrete e.key k) p (some a) (address_of k o)),
    ground arith,
  )

  pub element_at_later :
      (a k : ℕ) (e d : Entry P) (o : Order P)
      → element_at a o ≡ none
      → element_at k o ≡ some d
      → element_at k ((a, e) ∷ o) ≡ some d
  unfolding element_at
  element_at_later a k e d o h g = ground arith

  element_at_head :
      (a b : ℕ) (e : Entry P) (o : Order P)
      → element_at b ((a, e) ∷ o) ≡ none
      → (b ≢ a) × (element_at b o ≡ none)
  unfolding element_at
  element_at_head a b e o h = ground arith

  pub element_at-address_of :
      (n k : ℕ) (key : Text) (o : Order P)
      → WellFormed n o
      → address_of key o ≡ some k
      → (e : Entry P) × (element_at k o ≡ some e) × (e.key ≡ key) × (k < n)
  unfolding element_at
  element_at-address_of n k key [] w h = ground arith
  element_at-address_of n k key ((a, e) ∷ o) w h = elim (Text-discrete e.key key) [
    | yes p ↦
        let x : some a ≡ some k = sym (if_pos (Text-discrete e.key key) p _ _) ∙ h in
        (e, ground arith, p, ground arith)
    | no q ↦
        let (d, g, p, l) =
          element_at-address_of n k key o w.3 (sym (if_neg (Text-discrete e.key key) q _ _) ∙ h) in
        (d, element_at_later a k e d o w.1 g, p, l)
  ]

  pub element_at-remove_at :
      (a b : ℕ) (o : Order P) → a ≢ b → element_at a (remove_at b o) ≡ element_at a o
  unfolding element_at remove_at
  element_at-remove_at a b [] n = refl
  element_at-remove_at a b ((c, e) ∷ o) n = ground (arith, element_at-remove_at a b o n)

  address_of-element_at :
      (a : ℕ) (o : Order P) (e : Entry P) → element_at a o ≡ some e → address_of e.key o ≢ none
  unfolding element_at
  address_of-element_at a [] e h = λ _. ground arith
  address_of-element_at a ((c, d) ∷ o) e h =
      λ g. let q = address_of-element_at a o e in ground arith

  pub address_of-remove_at :
      (a : ℕ) (j : Text) (o : Order P) (e : Entry P) (n : ℕ)
      → element_at a o ≡ some e
      → WellFormed n o
      → address_of j (remove_at a o) ≡ ite (Text-discrete e.key j) none (address_of j o)
  unfolding element_at remove_at
  address_of-remove_at a j [] e n h w = ground arith
  address_of-remove_at a j ((c, d) ∷ o) e n h w =
      let q = address_of-element_at a o e in
      let r = address_of-remove_at a j o e n in
      let u = λ (p : d.key ≡ j). subst (λ k. address_of k o ≡ none) p w.2 in
      elim (Text-discrete e.key j) [ yes p ↦ ground arith | no p ↦ ground arith ]

  pub weights-remove_at :
      (a : ℕ) (o : Order P) (e : Entry P)
      → element_at a o ≡ some e
      → weights (remove_at a o) + e.weight ≡ weights o
  unfolding element_at remove_at
  weights-remove_at a [] e h = ground arith
  weights-remove_at a ((c, d) ∷ o) e h = ground (arith, weights-remove_at a o e)

  pub length-remove_at :
      (a : ℕ) (o : Order P) (e : Entry P)
      → element_at a o ≡ some e
      → length (remove_at a o) + 1 ≡ length o
  unfolding element_at remove_at
  length-remove_at a [] e h = ground arith
  length-remove_at a ((c, d) ∷ o) e h = ground (arith, length-remove_at a o e)

  pub element_at-append :
      (a b : ℕ) (e : Entry P) (o : Order P)
      → element_at b o ≡ none
      → element_at a (o ++ (b, e) ∷ []) ≡ (if a == b then some e else element_at a o)
  unfolding element_at
  element_at-append a b e [] h = refl
  element_at-append a b e ((c, d) ∷ o) h = ground (arith, element_at-append a b e o)

  pub address_of-append :
      (k : Text) (b : ℕ) (e : Entry P) (o : Order P)
      → address_of e.key o ≡ none
      → address_of k (o ++ (b, e) ∷ []) ≡ ite (Text-discrete e.key k) (some b) (address_of k o)
  address_of-append k b e [] h = refl
  address_of-append k b e ((c, d) ∷ o) h =
      let (n, m) = address_of-none e.key c d o h in
      let q = address_of-append k b e o m in
      elim (Text-discrete e.key k) [
        | yes p ↦
            if_neg (Text-discrete d.key k) (λ r. n (r ∙ sym p)) _ _
            ∙ q
            ∙ if_pos (Text-discrete e.key k) p _ _
            ∙ sym (if_pos (Text-discrete e.key k) p _ _)
        | no p ↦
            ap (ite (Text-discrete d.key k) (some c)) (q ∙ if_neg (Text-discrete e.key k) p _ _)
            ∙ sym (if_neg (Text-discrete e.key k) p _ _)
      ]

  pub weights-append :
      (b : ℕ) (e : Entry P) (o : Order P) → weights (o ++ (b, e) ∷ []) ≡ weights o + e.weight
  weights-append b e [] = omega arith
  weights-append b e ((c, d) ∷ o) = omega (arith, weights-append b e o)

  pub WellFormed-remove_at :
      (n a : ℕ) (o : Order P) (e : Entry P)
      → element_at a o ≡ some e
      → WellFormed n o
      → WellFormed n (remove_at a o)
  unfolding element_at remove_at
  WellFormed-remove_at n a [] e h w = tt
  WellFormed-remove_at n a ((c, d) ∷ o) e h w =
      let x = WellFormed-remove_at n a o e in
      let y = element_at-remove_at c a o in
      let z = address_of-remove_at a d.key o e n in ground arith

  pub WellFormed-append :
      (n b : ℕ) (e : Entry P) (o : Order P)
      → b < n
      → element_at b o ≡ none
      → address_of e.key o ≡ none
      → WellFormed n o
      → WellFormed n (o ++ (b, e) ∷ [])
  unfolding element_at
  WellFormed-append n b e [] l x y w = (l, refl, refl, tt)
  WellFormed-append n b e ((c, d) ∷ o) l x y w =
      let (n', m) = address_of-none e.key c d o y in
      let (f, x') = element_at_head c b d o x in
      let (l', u, v, w') = w in
      (
        l',
        element_at-append c b e o x' ∙ ground arith,
        address_of-append d.key b e o m
            ∙ if_neg (Text-discrete e.key d.key) (λ r. n' (sym r)) _ _
            ∙ v,
        WellFormed-append n b e o l x' m w',
      )
