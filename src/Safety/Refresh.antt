-- ===== src/Safety/Refresh.antt =====
-- To write new fields into an entry that is there, in safety_request_cache.go.
use airgate_openai.Base.{
  length-append, All-append_right, Text, Text-discrete, is_empty, get-put_self, ℕ, suc, ◌-◌, ◌≡◌,
  refl, sym, ◌∙◌, ◌≢◌, ite, false, none, some, List, [], ◌∷◌, ◌++◌, arith, ℕ_discrete,
}
use airgate_openai.Safety.Cache.{SafetyRequestCache, store, category_count}
use airgate_openai.Safety.Segment.{
  Item, node, head_or, last_or, IsSegment-agree, AgreeOn-put, IsSegment-append,
  IsSegment-append_left, IsSegment-append_right,
}
use airgate_openai.Safety.Chain.{IsLinked, Keeps, AreApart-append, AreDistinct-append_right}
use airgate_openai.Safety.Moves.{head_or-append, last_or-append}
use airgate_openai.Safety.Spec.{count_in, Represents}
use airgate_openai.Safety.Lists.{count_in-append, Avoids-replace, AreDistinct-replace}
use airgate_openai.Safety.Chain.{Keeps-store}

abbrev pub restated : ℕ → Text → Text → Item → Item
restated t s g x = record x { expires_at = t; reason = s; category = g }

-- To put another item with the same hash in an item's place, in the chain and in the map.
pub replaced :
    (ttl limit t : ℕ) (s g : Text) (c : SafetyRequestCache) (xs : List Item) (x : Item)
    (ys : List Item)
    → Represents ttl limit c (xs ++ x ∷ ys)
    → let x' = restated t s g x in
      let c' = store x.hash (node x' (last_or xs none) (head_or ys none)) c in
      IsLinked c' (xs ++ x' ∷ ys) × Keeps c c' (xs ++ x' ∷ ys)
unfolding store
replaced ttl limit t s g c xs x ys r =
    let x' = restated t s g x in
    let e = node x' (last_or xs none) (head_or ys none) in
    let c' = store x.hash e c in
    let d = r.items_distinct in
    let before = IsSegment-append_left c.entries none none xs (x ∷ ys) r.linked.segment in
    let behind = IsSegment-append_right c.entries none none xs (x ∷ ys) r.linked.segment in
    let apart = AreApart-append xs (x ∷ ys) d in
    (
      record {
        segment =
            IsSegment-append c'.entries none none xs (x' ∷ ys)
              (IsSegment-agree c.entries c'.entries none (some x.hash) xs
                (AgreeOn-put c.entries x.hash e xs apart.0) before)
              (
                get-put_self ℕ_discrete x.hash e c.entries,
                IsSegment-agree c.entries c'.entries (some x.hash) none ys
                    (AgreeOn-put c.entries x.hash e ys (AreDistinct-append_right xs (x ∷ ys) d).0)
                    behind.1,
              );
        first =
            r.linked.first
            ∙ head_or-append xs (x ∷ ys) none
            ∙ sym (head_or-append xs (x' ∷ ys) none);
        last =
            r.linked.last
            ∙ last_or-append xs (x ∷ ys) none
            ∙ sym (last_or-append xs (x' ∷ ys) none);
      },
      Keeps-store c x.hash (node x (last_or xs none) (head_or ys none)) e (xs ++ x' ∷ ys) behind.0
          (λ k a. (All-append_right (λ (z : Item). z.hash ≢ k) xs (x' ∷ ys) a).0),
    )

-- Where the chain and the map are as they should be, the counts are what is left.
pub rewritten :
    (ttl limit t : ℕ) (s g : Text) (c c' : SafetyRequestCache) (xs : List Item) (x : Item)
    (ys : List Item)
    → let x' = restated t s g x in
      Represents ttl limit c (xs ++ x ∷ ys)
      → IsLinked c' (xs ++ x' ∷ ys)
      → Keeps c (record c' { categories = c.categories }) (xs ++ x' ∷ ys)
      → ((category : Text)
          → is_empty category ≡ false
          → category_count category c'.categories ≡ count_in category (xs ++ x' ∷ ys))
      → Represents ttl limit c' (xs ++ x' ∷ ys)
rewritten ttl limit t s g c c' xs x ys r k f counts =
    let x' = restated t s g x in
    record {
      linked = k;
      items_distinct = AreDistinct-replace x x' refl ys xs r.items_distinct;
      entries_distinct = f.distinct r.entries_distinct;
      absent = λ j a. f.others j a ∙ r.absent j (Avoids-replace x' x refl ys j xs a);
      size = omega (arith, f.size, r.size, length-append xs (x ∷ ys), length-append xs (x' ∷ ys));
      counts = counts;
      same_ttl = f.ttl ∙ r.same_ttl;
      same_limit = f.max_entries ∙ r.same_limit;
    }

count_in_same :
    (category : Text) (xs : List Item) (x x' : Item) (ys : List Item)
    → x.category ≡ x'.category
    → count_in category (xs ++ x ∷ ys) ≡ count_in category (xs ++ x' ∷ ys)
count_in_same category [] x x' ys e = rw e
count_in_same category (y ∷ xs) x x' ys e = rw (count_in_same category xs x x' ys e)

-- Time and reason.
pub renewed_lem :
    (ttl limit t : ℕ) (s : Text) (c : SafetyRequestCache) (xs : List Item) (x : Item)
    (ys : List Item)
    → Represents ttl limit c (xs ++ x ∷ ys)
    → let x' = restated t s x.category x in
      Represents ttl limit
        (store x.hash (node x' (last_or xs none) (head_or ys none)) c)
        (xs ++ x' ∷ ys)
unfolding store
renewed_lem ttl limit t s c xs x ys r =
    let x' = restated t s x.category x in
    let e = node x' (last_or xs none) (head_or ys none) in
    let (k, f) = replaced ttl limit t s x.category c xs x ys r in
    rewritten ttl limit t s x.category c (store x.hash e c) xs x ys r k
      (record {
        size = f.size;
        distinct = f.distinct;
        others = f.others;
        categories = refl;
        ttl = f.ttl;
        max_entries = f.max_entries;
      })
      (λ category h. r.counts category h ∙ count_in_same category xs x x' ys refl)

pub moved_count :
    (category old new : Text) (xs : List Item) (x : Item) (ys : List Item) {n m : ℕ}
    → n ≡ count_in category (xs ++ x ∷ ys)
    → x.category ≡ old
    → m ≡ ite (Text-discrete old category) (n - 1) n
    → ite (Text-discrete new category) (suc m) m
      ≡ count_in category (xs ++ record x { category = new } ∷ ys)
moved_count category old new xs x ys e o f = ground (
  arith,
  count_in-append category xs (x ∷ ys),
  count_in-append category xs (record x { category = new } ∷ ys),
)
