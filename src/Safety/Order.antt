-- ===== src/Safety/Order.antt =====
-- Why one expiry order serves both the purge and the eviction in safety_request_cache.go: every item
-- expires no later than those refreshed after it.
use airgate_openai.Base.{
  ltb, leb, ◌==◌, if◌then◌else◌, ltb→lt, ==_iff, Bool-cases, Option-cases, length, All,
  length-append, All-append, All-imp, Text, ℕ, ◌+◌, ◌≤◌, ◌<◌, ◌≡◌, refl, sym, ◌∙◌, inl, inr, true,
  false, Option, none, some, List, [], ◌∷◌, ◌++◌, arith,
}
use airgate_openai.Safety.Segment.{Item, AreDistinct}
use airgate_openai.Safety.Spec.{
  drop_expired, drop_oldest, find, without, refreshed, spec_add, spec_add_all,
}
use airgate_openai.Safety.Lists.{find-absent}

abbrev pub ExpireBy : ℕ → List Item → Type 0
ExpireBy t = All (λ y. y.expires_at ≤ t)

abbrev pub ExpireFrom : ℕ → List Item → Type 0
ExpireFrom t = All (λ y. t ≤ y.expires_at)

abbrev pub IsOrdered : List Item → Type 0
IsOrdered [] = Unit
IsOrdered (x ∷ xs) = ExpireFrom x.expires_at xs × IsOrdered xs

-- The expiry of an addition: never before the newest item's.
unfoldable pub clamped : ℕ → List Item → ℕ
clamped t [] = t
clamped t (x ∷ []) = if ltb t x.expires_at then x.expires_at else t
clamped t (x ∷ y ∷ xs) = clamped t (y ∷ xs)

pub le-clamped : (t : ℕ) (l : List Item) → t ≤ clamped t l
unfolding clamped
le-clamped t [] = omega arith
le-clamped t (x ∷ []) = ground arith
le-clamped t (x ∷ y ∷ xs) = le-clamped t (y ∷ xs)

pub clamped-ExpireBy : (t : ℕ) (l : List Item) → IsOrdered l → ExpireBy (clamped t l) l
unfolding clamped
clamped-ExpireBy t [] o = tt
clamped-ExpireBy t (x ∷ []) o = (ground arith, tt)
clamped-ExpireBy t (x ∷ y ∷ xs) o =
    let h = clamped-ExpireBy t (y ∷ xs) o.1 in (omega (arith, o.0.0, h.0), h)

pub IsOrdered-end :
    (l : List Item) (x : Item) → IsOrdered l → ExpireBy x.expires_at l → IsOrdered (l ++ x ∷ [])
IsOrdered-end [] x o e = (tt, tt)
IsOrdered-end (y ∷ l) x o e = (
  All-append (λ (z : Item). y.expires_at ≤ z.expires_at) l (x ∷ []) o.0 (e.0, tt),
  IsOrdered-end l x o.1 e.1,
)

All-without {ℓ} : (P : Item → Type ℓ) (h : ℕ) (l : List Item) → All P l → All P (without h l)
unfolding without
All-without P h [] a = a
All-without P h (x ∷ l) a = elim (Bool-cases (x.hash == h)) [
  | inl t ↦ rw t a.1
  | inr t ↦ rw t (a.0, All-without P h l a.1)
]

pub All-drop_oldest {ℓ} :
    (P : Item → Type ℓ) (room : ℕ) (l : List Item) → All P l → All P (drop_oldest room l)
unfolding drop_oldest
All-drop_oldest P room [] a = a
All-drop_oldest P room (x ∷ l) a = elim (Bool-cases (leb room (length (x ∷ l)))) [
  | inl t ↦ rw t (All-drop_oldest P room l a.1)
  | inr t ↦ rw t a
]

IsOrdered-without : (h : ℕ) (l : List Item) → IsOrdered l → IsOrdered (without h l)
unfolding without
IsOrdered-without h [] o = o
IsOrdered-without h (x ∷ l) o = elim (Bool-cases (x.hash == h)) [
  | inl t ↦ rw t o.1
  | inr t ↦
      rw t
        (All-without (λ (z : Item). x.expires_at ≤ z.expires_at) h l o.0, IsOrdered-without h l o.1)
]

IsOrdered-drop_oldest : (room : ℕ) (l : List Item) → IsOrdered l → IsOrdered (drop_oldest room l)
unfolding drop_oldest
IsOrdered-drop_oldest room [] o = o
IsOrdered-drop_oldest room (x ∷ l) o = elim (Bool-cases (leb room (length (x ∷ l)))) [
  | inl t ↦ rw t (IsOrdered-drop_oldest room l o.1)
  | inr t ↦ rw t o
]

pub IsOrdered-drop_expired :
    (now : ℕ) (l : List Item) → IsOrdered l → IsOrdered (drop_expired now l)
unfolding drop_expired
IsOrdered-drop_expired now [] o = o
IsOrdered-drop_expired now (x ∷ l) o = elim (Bool-cases (ltb now x.expires_at)) [
  | inl t ↦ rw t o
  | inr t ↦ rw t (IsOrdered-drop_expired now l o.1)
]

pub length-drop_expired-le : (now : ℕ) (l : List Item) → length (drop_expired now l) ≤ length l
unfolding drop_expired
length-drop_expired-le now [] = omega arith
length-drop_expired-le now (x ∷ l) = ground (arith, length-drop_expired-le now l)

length-drop_oldest-lt : (room : ℕ) (l : List Item) → 0 < room → length (drop_oldest room l) < room
unfolding drop_oldest
length-drop_oldest-lt room [] p = omega arith
length-drop_oldest-lt room (x ∷ l) p = ground (arith, length-drop_oldest-lt room l p)

length-without :
    (h : ℕ) (l : List Item) {x : Item} → find h l ≡ some x → length (without h l) + 1 ≡ length l
unfolding find without
length-without h [] e = absurd (cc)
length-without h (y ∷ l) {x} e = elim (Bool-cases (y.hash == h)) [
  | inl t ↦ rw t (omega arith)
  | inr t ↦ rw t (omega (arith, length-without h l {x = x} (ground arith)))
]

-- What an addition keeps: order, an upper bound on the expiries, and the limit on the items.
pub record Keeping (room t : ℕ) (l : List Item) : Type 0 where
  pub ordered : IsOrdered l
  pub by : ExpireBy t l
  pub bounded : length l ≤ room

pub spec_add-Keeping :
    (room t : ℕ) (reason category : Text) (h : ℕ) (l : List Item)
    → 0 < room
    → Keeping room t l
    → Keeping room t (spec_add room t reason category h l)
unfolding spec_add refreshed
spec_add-Keeping room t reason category h l p k =
    let By = λ (z : Item). z.expires_at ≤ t in
    elim (Option-cases (find h l)) [
      | inl missing ↦
          let new : Item = record {
            expires_at = t;
            reason = reason;
            category = category;
            hash = h;
          } in
          rw (missing, spec_add)
            (record {
              ordered =
                  IsOrdered-end (drop_oldest room l) new (IsOrdered-drop_oldest room l k.ordered)
                    (All-drop_oldest By room l k.by);
              by =
                  All-append By (drop_oldest room l) (new ∷ []) (All-drop_oldest By room l k.by)
                    (omega arith, tt);
              bounded = omega (
                arith,
                length-append (drop_oldest room l) (new ∷ []),
                length-drop_oldest-lt room l p,
              );
            })
      | inr (x, found) ↦
          let new = refreshed t reason category x in
          rw (found, spec_add)
            (record {
              ordered =
                  IsOrdered-end (without h l) new (IsOrdered-without h l k.ordered)
                    (All-without By h l k.by);
              by =
                  All-append By (without h l) (new ∷ []) (All-without By h l k.by)
                    (omega arith, tt);
              bounded = omega (
                arith,
                length-append (without h l) (new ∷ []),
                length-without h l found,
                k.bounded,
              );
            })
    ]

pub spec_add_all-Keeping :
    (room t : ℕ) (reason category : Text) (hs : List ℕ) (l : List Item)
    → 0 < room
    → Keeping room t l
    → Keeping room t (spec_add_all room t reason category hs l)
unfolding spec_add_all
spec_add_all-Keeping room t reason category [] l p k = k
spec_add_all-Keeping room t reason category (h ∷ hs) l p k =
    spec_add_all-Keeping room t reason category hs (spec_add room t reason category h l) p
      (spec_add-Keeping room t reason category h l p k)

-- Of an item that is found: whether it is still alive.
unfoldable pub if_alive : ℕ → Option Item → Option Item
if_alive now none = none
if_alive now (some x) = if ltb now x.expires_at then some x else none

All-alive :
    (h now : ℕ) (l : List Item)
    → All (λ y. now < y.expires_at) l
    → if_alive now (find h l) ≡ find h l
unfolding if_alive find
All-alive h now [] a = refl
All-alive h now (x ∷ l) a = ground (arith, a.0, All-alive h now l a.1)

-- The purge hides the items that have expired, and no other.
pub find-drop_expired :
    (h now : ℕ) (l : List Item)
    → IsOrdered l
    → AreDistinct l
    → find h (drop_expired now l) ≡ if_alive now (find h l)
unfolding find drop_expired if_alive
find-drop_expired h now [] o d = refl
find-drop_expired h now (x ∷ l) o d = elim (Bool-cases (ltb now x.expires_at)) [
  | inl t ↦ rw t (
      sym (
        All-alive h now (x ∷ l) (
          ltb→lt now x.expires_at t,
          All-imp (λ (y : Item). x.expires_at ≤ y.expires_at) (λ (y : Item). now < y.expires_at) l
              (λ y e. omega (arith, ltb→lt now x.expires_at t)) o.0,
        )))
  | inr t ↦ rw t (elim (Bool-cases (x.hash == h)) [
    | inl same ↦ find-drop_expired h now l o.1 d.1 ∙ hidden same t
    | inr other ↦ rw other (find-drop_expired h now l o.1 d.1)
  ])
]
  where
    hidden :
        (x.hash == h) ≡ true
        → ltb now x.expires_at ≡ false
        → if_alive now (find h l) ≡ if_alive now (if x.hash == h then some x else find h l)
    hidden same t =
        let e = (==_iff x.hash h).0 same in rw (find-absent h l (rw e at d.0), same) (rw t)
