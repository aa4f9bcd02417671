-- ===== src/Safety/Segment.antt =====
-- The doubly linked list of safety_request_cache.go as a chain of nodes in the map of entries:
-- what one node says, and how a segment is relinked at its ends.
use airgate_openai.Base.{
  All, Text, GoMap, get, put, delete, get-put_self, get-put_ne, get-delete_ne, ℕ, ◌≡◌, sym, ◌∙◌,
  ◌≢◌, Option, some, List, [], ◌∷◌, ◌++◌, ℕ_discrete,
}
use airgate_openai.Safety.Cache.{Entry}

-- An entry without its links.
pub record Item : Type 0 where
  pub expires_at : ℕ
  pub reason : Text
  pub category : Text
  pub hash : ℕ

abbrev pub node : Item → Option ℕ → Option ℕ → Entry
node x older newer = record {
  expires_at = x.expires_at;
  reason = x.reason;
  category = x.category;
  hash = x.hash;
  older = older;
  newer = newer;
}

abbrev pub head_or : List Item → Option ℕ → Option ℕ
head_or [] p = p
head_or (x ∷ xs) p = some x.hash

abbrev pub last_or : List Item → Option ℕ → Option ℕ
last_or [] p = p
last_or (x ∷ xs) p = last_or xs (some x.hash)

-- The nodes of the items, in order, between the links `older` and `newer`.
abbrev pub IsSegment : GoMap ℕ Entry → Option ℕ → List Item → Option ℕ → Type 0
IsSegment m older [] newer = Unit
IsSegment m older (x ∷ xs) newer =
    (get ℕ_discrete x.hash m ≡ some (node x older (head_or xs newer)))
    × IsSegment m (some x.hash) xs newer

-- No item has the hash.
abbrev pub Avoids : ℕ → List Item → Type 0
Avoids h = All (λ x. x.hash ≢ h)

-- No two items have the same hash.
abbrev pub AreDistinct : List Item → Type 0
AreDistinct [] = Unit
AreDistinct (x ∷ xs) = Avoids x.hash xs × AreDistinct xs

-- The two maps agree on the nodes of the items.
abbrev pub AgreeOn : GoMap ℕ Entry → GoMap ℕ Entry → List Item → Type 0
AgreeOn m m' = All (λ x. get ℕ_discrete x.hash m' ≡ get ℕ_discrete x.hash m)

pub IsSegment-agree :
    (m m' : GoMap ℕ Entry) (older newer : Option ℕ) (xs : List Item)
    → AgreeOn m m' xs
    → IsSegment m older xs newer
    → IsSegment m' older xs newer
IsSegment-agree m m' older newer [] a s = tt
IsSegment-agree m m' older newer (x ∷ xs) a s =
    (a.0 ∙ s.0, IsSegment-agree m m' (some x.hash) newer xs a.1 s.1)

-- A write to another node is not seen.
pub AgreeOn-put :
    (m : GoMap ℕ Entry) (h : ℕ) (e : Entry) (xs : List Item)
    → Avoids h xs
    → AgreeOn m (put ℕ_discrete h e m) xs
AgreeOn-put m h e [] a = tt
AgreeOn-put m h e (x ∷ xs) a =
    (get-put_ne ℕ_discrete x.hash h e m (λ p. a.0 (sym p)), AgreeOn-put m h e xs a.1)

pub AgreeOn-delete :
    (m : GoMap ℕ Entry) (h : ℕ) (xs : List Item)
    → Avoids h xs
    → AgreeOn m (delete ℕ_discrete h m) xs
AgreeOn-delete m h [] a = tt
AgreeOn-delete m h (x ∷ xs) a =
    (get-delete_ne ℕ_discrete x.hash h m (λ p. a.0 (sym p)), AgreeOn-delete m h xs a.1)

pub IsSegment-append :
    (m : GoMap ℕ Entry) (older newer : Option ℕ) (xs ys : List Item)
    → IsSegment m older xs (head_or ys newer)
    → IsSegment m (last_or xs older) ys newer
    → IsSegment m older (xs ++ ys) newer
IsSegment-append m older newer [] ys s t = t
IsSegment-append m older newer (x ∷ []) ys s t = (s.0, t)
IsSegment-append m older newer (x ∷ y ∷ xs) ys s t =
    (s.0, IsSegment-append m (some x.hash) newer (y ∷ xs) ys s.1 t)

pub IsSegment-append_left :
    (m : GoMap ℕ Entry) (older newer : Option ℕ) (xs ys : List Item)
    → IsSegment m older (xs ++ ys) newer
    → IsSegment m older xs (head_or ys newer)
IsSegment-append_left m older newer [] ys s = tt
IsSegment-append_left m older newer (x ∷ []) ys s = (s.0, tt)
IsSegment-append_left m older newer (x ∷ y ∷ xs) ys s =
    (s.0, IsSegment-append_left m (some x.hash) newer (y ∷ xs) ys s.1)

pub IsSegment-append_right :
    (m : GoMap ℕ Entry) (older newer : Option ℕ) (xs ys : List Item)
    → IsSegment m older (xs ++ ys) newer
    → IsSegment m (last_or xs older) ys newer
IsSegment-append_right m older newer [] ys s = s
IsSegment-append_right m older newer (x ∷ xs) ys s =
    IsSegment-append_right m (some x.hash) newer xs ys s.1

-- The last node is one of the items.
pub last_or-ne :
    (h : ℕ) (older : Option ℕ) (x : Item) (xs : List Item) {p : ℕ}
    → Avoids h (x ∷ xs)
    → last_or (x ∷ xs) older ≡ some p
    → p ≢ h
last_or-ne h older x [] a l e = a.0 (cc)
last_or-ne h older x (y ∷ xs) a l e = last_or-ne h (some x.hash) y xs a.1 l e

-- To write the link after the last item.
pub relink_last :
    (m : GoMap ℕ Entry) (older newer newer' : Option ℕ) (x : Item) (xs : List Item) {p : ℕ}
    → AreDistinct (x ∷ xs)
    → IsSegment m older (x ∷ xs) newer
    → last_or (x ∷ xs) older ≡ some p
    → (e : Entry) × (get ℕ_discrete p m ≡ some e)
      × IsSegment (put ℕ_discrete p (record e { newer = newer' }) m) older (x ∷ xs) newer'
relink_last m older newer newer' x [] {p} d s l =
    let e : x.hash ≡ p = cc in
    (
      node x older newer,
      rw (← e) s.0,
      (rw (← e) (get-put_self ℕ_discrete x.hash (node x older newer') m), tt),
    )
relink_last m older newer newer' x (y ∷ xs) {p} d s l =
    let (e, found, rest) = relink_last m (some x.hash) newer newer' y xs d.1 s.1 l in
    (
      e,
      found,
      (
        get-put_ne ℕ_discrete x.hash p (record e { newer = newer' }) m
              (last_or-ne x.hash (some x.hash) y xs d.0 l)
            ∙ s.0,
        rest,
      ),
    )

-- To write the link before the first item.
pub relink_first :
    (m : GoMap ℕ Entry) (older older' newer : Option ℕ) (x : Item) (xs : List Item)
    → AreDistinct (x ∷ xs)
    → IsSegment m older (x ∷ xs) newer
    → (e : Entry) × (get ℕ_discrete x.hash m ≡ some e)
      × IsSegment (put ℕ_discrete x.hash (record e { older = older' }) m) older' (x ∷ xs) newer
relink_first m older older' newer x xs d s =
    let e = node x older (head_or xs newer) in
    let e' = node x older' (head_or xs newer) in
    (
      e,
      s.0,
      (
        get-put_self ℕ_discrete x.hash e' m,
        IsSegment-agree m (put ℕ_discrete x.hash e' m) (some x.hash) newer xs
            (AgreeOn-put m x.hash e' xs d.0) s.1,
      ),
    )
