-- ===== src/Safety/Lists.antt =====
-- Lists of the safety cache's items: to find one, to put another in its place, and to move it to the
-- end.
use airgate_openai.Base.{
  ◌==◌, Bool-cases, All-append, All-append_left, All-append_right, Text, ℕ, ◌+◌, ◌≡◌, refl, ap, ◌∙◌,
  ◌≢◌, inl, inr, none, some, List, [], ◌∷◌, ◌++◌, arith,
}
use airgate_openai.Safety.Segment.{Item, Avoids, AreDistinct}
use airgate_openai.Safety.Chain.{
  AreApart, AreDistinct-append_left, AreDistinct-append_right, AreApart-append, AreDistinct-append,
}
use airgate_openai.Safety.Spec.{find, without, count_in}

pub find-none : (h : ℕ) (l : List Item) → find h l ≡ none → Avoids h l
unfolding find
find-none h [] e = tt
find-none h (x ∷ xs) e = elim (Bool-cases (x.hash == h)) [
  | inl p ↦ absurd (ground arith)
  | inr q ↦ ((λ p. ground arith), find-none h xs (ground arith))
]

-- Where an item that is found stands.
pub find_split :
    (h : ℕ) (l : List Item) {x : Item}
    → find h l ≡ some x
    → (xs : List Item) × (ys : List Item) × (l ≡ xs ++ x ∷ ys)
      × (x.hash ≡ h)
      × (without h l ≡ xs ++ ys)
unfolding find without
find_split h [] e = absurd (cc)
find_split h (y ∷ l) {x} e = elim (Bool-cases (y.hash == h)) [
  | inl p ↦ let same : y ≡ x = ground arith in ([], l, ap (λ z. z ∷ l) same, ground arith, rw p)
  | inr q ↦
      let (xs, ys, l_eq, hash_eq, rest) = find_split h l {x = x} (ground arith) in
      (y ∷ xs, ys, ap (◌∷◌ y) l_eq, hash_eq, rw q (ap (◌∷◌ y) rest))
]

pub find-absent : (h : ℕ) (l : List Item) → Avoids h l → find h l ≡ none
unfolding find
find-absent h [] a = refl
find-absent h (x ∷ xs) a = ground (arith, a.0, find-absent h xs a.1)

pub count_in-append :
    (category : Text) (xs ys : List Item)
    → count_in category (xs ++ ys) ≡ count_in category xs + count_in category ys
count_in-append category [] ys = omega arith
count_in-append category (x ∷ xs) ys = ground (arith, count_in-append category xs ys)

module _ (x x' : Item) (same : x.hash ≡ x'.hash) (ys : List Item) where
  pub Avoids-replace : (k : ℕ) (xs : List Item) → Avoids k (xs ++ x ∷ ys) → Avoids k (xs ++ x' ∷ ys)
  Avoids-replace k [] a = ((λ e. a.0 (same ∙ e)), a.1)
  Avoids-replace k (y ∷ xs) a = (a.0, Avoids-replace k xs a.1)

  pub AreDistinct-replace :
      (xs : List Item) → AreDistinct (xs ++ x ∷ ys) → AreDistinct (xs ++ x' ∷ ys)
  AreDistinct-replace [] d = (rw same at d.0, d.1)
  AreDistinct-replace (y ∷ xs) d = (Avoids-replace y.hash xs d.0, AreDistinct-replace xs d.1)

pub Avoids-rotate :
    (k : ℕ) (xs : List Item) (x : Item) (ys : List Item)
    → Avoids k ((xs ++ ys) ++ x ∷ [])
    → Avoids k (xs ++ x ∷ ys)
Avoids-rotate k xs x ys a =
    let P = λ (z : Item). z.hash ≢ k in
    let b = All-append_left P (xs ++ ys) (x ∷ []) a in
    All-append P xs (x ∷ ys) (All-append_left P xs ys b)
      ((All-append_right P (xs ++ ys) (x ∷ []) a).0, All-append_right P xs ys b)

avoid_end :
    (x : Item) (xs : List Item) → AreApart xs (x ∷ []) → AreDistinct xs → AreDistinct (xs ++ x ∷ [])
avoid_end x xs a d = AreDistinct-append xs (x ∷ []) d (tt, tt) a

pub AreDistinct-end :
    (l : List Item) (x : Item) → AreDistinct l → Avoids x.hash l → AreDistinct (l ++ x ∷ [])
AreDistinct-end l x d a = avoid_end x l (a, tt) d

-- An item that is distinct from those before and behind it.
pub middle-Avoids :
    (xs : List Item) (x : Item) (ys : List Item)
    → AreDistinct (xs ++ x ∷ ys)
    → Avoids x.hash (xs ++ ys)
middle-Avoids xs x ys d =
    All-append (λ (z : Item). z.hash ≢ x.hash) xs ys (AreApart-append xs (x ∷ ys) d).0
      (AreDistinct-append_right xs (x ∷ ys) d).0

pub middle_distinct :
    (xs : List Item) (x : Item) (ys : List Item)
    → AreDistinct (xs ++ x ∷ ys)
    → AreDistinct (xs ++ ys)
middle_distinct xs x ys d =
    AreDistinct-append xs ys (AreDistinct-append_left xs (x ∷ ys) d)
      (AreDistinct-append_right xs (x ∷ ys) d).1 (AreApart-append xs (x ∷ ys) d).1
