-- ===== src/Safety/Chain.antt =====
-- What the list operations of safety_request_cache.go do to the chain of nodes: to take one entry
-- out, and to append one behind the newest.
use airgate_openai.Base.{
  length, All, All-append, All-append_left, All-append_right, get, Distinct, get-put_ne,
  put-Distinct, length-put_old, ℕ, ◌≡◌, refl, sym, ◌≢◌, Option, none, some, List, [], ◌∷◌, ◌++◌,
  ℕ_discrete,
}
use airgate_openai.Safety.Cache.{Entry, SafetyRequestCache, store, unlink_older, unlink_newer}
use airgate_openai.Safety.Segment.{
  Item, head_or, last_or, IsSegment, Avoids, AreDistinct, AgreeOn, last_or-ne, relink_last,
  relink_first,
}

-- From the oldest to the newest entry the links lead through the items, in both directions.
pub record IsLinked (c : SafetyRequestCache) (l : List Item) : Type 0 where
  pub segment : IsSegment c.entries none l none
  pub first : c.oldest ≡ head_or l none
  pub last : c.newest ≡ last_or l none

-- What an operation on the links of the items leaves alone.
pub record Keeps (c c' : SafetyRequestCache) (l : List Item) : Type 0 where
  pub size : length c'.entries ≡ length c.entries
  pub distinct : Distinct ℕ_discrete c.entries → Distinct ℕ_discrete c'.entries
  pub others : (k : ℕ) → Avoids k l → get ℕ_discrete k c'.entries ≡ get ℕ_discrete k c.entries
  pub categories : c'.categories ≡ c.categories
  pub ttl : c'.ttl ≡ c.ttl
  pub max_entries : c'.max_entries ≡ c.max_entries

-- No hash of the one list is in the other.
abbrev pub AreApart : List Item → List Item → Type 0
AreApart xs ys = All (λ y. Avoids y.hash xs) ys

pub AreDistinct-append_left : (xs ys : List Item) → AreDistinct (xs ++ ys) → AreDistinct xs
AreDistinct-append_left [] ys d = tt
AreDistinct-append_left (x ∷ xs) ys d =
    (All-append_left (λ (z : Item). z.hash ≢ x.hash) xs ys d.0, AreDistinct-append_left xs ys d.1)

pub AreDistinct-append_right : (xs ys : List Item) → AreDistinct (xs ++ ys) → AreDistinct ys
AreDistinct-append_right [] ys d = d
AreDistinct-append_right (x ∷ xs) ys d = AreDistinct-append_right xs ys d.1

Avoids-both :
    (x : Item) (xs ys : List Item) → Avoids x.hash ys → AreApart xs ys → AreApart (x ∷ xs) ys
Avoids-both x xs [] a b = tt
Avoids-both x xs (y ∷ ys) a b = (((λ e. a.0 (sym e)), b.0), Avoids-both x xs ys a.1 b.1)

nothing_apart : (ys : List Item) → AreApart [] ys
nothing_apart [] = tt
nothing_apart (y ∷ ys) = (tt, nothing_apart ys)

pub AreApart-append : (xs ys : List Item) → AreDistinct (xs ++ ys) → AreApart xs ys
AreApart-append [] ys d = nothing_apart ys
AreApart-append (x ∷ xs) ys d =
    Avoids-both x xs ys (All-append_right (λ (z : Item). z.hash ≢ x.hash) xs ys d.0)
      (AreApart-append xs ys d.1)

apart_head : (x : Item) (xs ys : List Item) → AreApart (x ∷ xs) ys → Avoids x.hash ys
apart_head x xs [] h = tt
apart_head x xs (y ∷ ys) h = ((λ e. h.0.0 (sym e)), apart_head x xs ys h.1)

apart_tail : (x : Item) (xs ys : List Item) → AreApart (x ∷ xs) ys → AreApart xs ys
apart_tail x xs [] h = tt
apart_tail x xs (y ∷ ys) h = (h.0.1, apart_tail x xs ys h.1)

pub AreApart-symm : (xs ys : List Item) → AreApart xs ys → AreApart ys xs
AreApart-symm [] ys h = tt
AreApart-symm (x ∷ xs) ys h = (apart_head x xs ys h, AreApart-symm xs ys (apart_tail x xs ys h))

pub AreDistinct-append :
    (xs ys : List Item) → AreDistinct xs → AreDistinct ys → AreApart xs ys → AreDistinct (xs ++ ys)
AreDistinct-append [] ys d e a = e
AreDistinct-append (x ∷ xs) ys d e a = (
  All-append (λ (z : Item). z.hash ≢ x.hash) xs ys d.0 (apart_head x xs ys a),
  AreDistinct-append xs ys d.1 e (apart_tail x xs ys a),
)

-- Two maps that agree on all keys but some items' agree on any items apart from those.
pub agree_apart :
    (c c' : SafetyRequestCache) (xs ys : List Item)
    → Keeps c c' xs
    → AreApart xs ys
    → AgreeOn c.entries c'.entries ys
agree_apart c c' xs [] k a = tt
agree_apart c c' xs (y ∷ ys) k a = (k.others y.hash a.0, agree_apart c c' xs ys k a.1)

pub last_or_cases :
    (x : Item) (xs : List Item) (older : Option ℕ) → (p : ℕ) × (last_or (x ∷ xs) older ≡ some p)
last_or_cases x [] older = (x.hash, refl)
last_or_cases x (y ∷ xs) older = last_or_cases y xs (some x.hash)

-- A write to a node that is there.
pub Keeps-store :
    (c : SafetyRequestCache) (p : ℕ) (e e' : Entry) (l : List Item)
    → get ℕ_discrete p c.entries ≡ some e
    → ((k : ℕ) → Avoids k l → p ≢ k)
    → Keeps c (store p e' c) l
unfolding store
Keeps-store c p e e' l found mem = record {
  size = length-put_old ℕ_discrete p e' e c.entries found;
  distinct = put-Distinct ℕ_discrete p e' c.entries;
  others = λ k a. get-put_ne ℕ_discrete k p e' c.entries (mem k a);
  categories = refl;
  ttl = refl;
  max_entries = refl;
}

pub Keeps-refl : (c : SafetyRequestCache) (l : List Item) → Keeps c c l
Keeps-refl c l = record {
  size = refl;
  distinct = λ d. d;
  others = λ k a. refl;
  categories = refl;
  ttl = refl;
  max_entries = refl;
}

-- To give the items before an entry another entry behind them.
pub unlink_older_lem :
    (c : SafetyRequestCache) (xs : List Item) (newer newer' : Option ℕ)
    → AreDistinct xs
    → IsSegment c.entries none xs newer
    → c.oldest ≡ head_or xs newer
    → (c' : SafetyRequestCache) × (unlink_older (last_or xs none) newer' c ≡ some c')
      × IsSegment c'.entries none xs newer'
      × (c'.oldest ≡ head_or xs newer')
      × (c'.newest ≡ c.newest)
      × Keeps c c' xs
unfolding unlink_older
unlink_older_lem c [] newer newer' d s o = (
  record c { oldest = newer' },
  refl,
  tt,
  refl,
  refl,
  record {
    size = refl;
    distinct = λ z. z;
    others = λ k a. refl;
    categories = refl;
    ttl = refl;
    max_entries = refl;
  },
)
unlink_older_lem c (x ∷ xs) newer newer' d s o =
    let (p, last) = last_or_cases x xs none in
    let (e, found, s') = relink_last c.entries none newer newer' x xs d s last in
    (
      store p (record e { newer = newer' }) c,
      rw (last, found),
      s',
      o,
      refl,
      Keeps-store c p e (record e { newer = newer' }) (x ∷ xs) found
          (λ k a. last_or-ne k none x xs a last),
    )

-- To give the items behind an entry another entry before them.
pub unlink_newer_lem :
    (c : SafetyRequestCache) (ys : List Item) (older older' : Option ℕ)
    → AreDistinct ys
    → IsSegment c.entries older ys none
    → c.newest ≡ last_or ys older
    → (c' : SafetyRequestCache) × (unlink_newer (head_or ys none) older' c ≡ some c')
      × IsSegment c'.entries older' ys none
      × (c'.newest ≡ last_or ys older')
      × (c'.oldest ≡ c.oldest)
      × Keeps c c' ys
unfolding unlink_newer
unlink_newer_lem c [] older older' d s o = (
  record c { newest = older' },
  refl,
  tt,
  refl,
  refl,
  record {
    size = refl;
    distinct = λ z. z;
    others = λ k a. refl;
    categories = refl;
    ttl = refl;
    max_entries = refl;
  },
)
unlink_newer_lem c (y ∷ ys) older older' d s o =
    let (e, found, s') = relink_first c.entries older older' none y ys d s in
    (
      store y.hash (record e { older = older' }) c,
      rw found,
      s',
      o,
      refl,
      Keeps-store c y.hash e (record e { older = older' }) (y ∷ ys) found (λ k a. a.0),
    )
