-- ===== src/Safety/Adds.antt =====
-- The additions of safety_request_cache.go implement those of the specification: to move an entry to
-- the newest end, to refresh one, and to insert one.
use airgate_openai.Base.{
  length, length-append, All-append_left, All-append_right, Text, Text-discrete, get, get-put_self,
  get-put_ne, put-Distinct, length-put_new, ℕ, suc, ◌≡◌, refl, sym, ap, ◌∙◌, ◌≢◌, ite, Option, none,
  some, List, [], ◌∷◌, ◌++◌, arith, ℕ_discrete,
}
use mathlib.Core.Path.{subst}
use mathlib.Core.List.{append-nil}
use airgate_openai.Safety.Cache.{
  SafetyRequestCache, store, detach, append_newest, move_to_newest, category_count,
  increment_category,
}
use airgate_openai.Safety.Store.{insert}
use airgate_openai.Safety.Segment.{
  Item, node, last_or, Avoids, AreDistinct, IsSegment-agree, AgreeOn-put, last_or-ne,
}
use airgate_openai.Safety.Chain.{IsLinked, AreDistinct-append_right}
use airgate_openai.Safety.Moves.{detach_lem, append_newest_lem, last_or-append}
use airgate_openai.Safety.Spec.{count_in, Represents, category_count-increment}
use airgate_openai.Safety.Lists.{
  count_in-append, Avoids-rotate, AreDistinct-end, middle-Avoids, middle_distinct,
}
use airgate_openai.Safety.Refine.{increment_links, IsLinked-same}

pointer_discrete : Discrete (Option ℕ)
pointer_discrete = hlevel ℕ_discrete

-- The chain's last link is `x` only where no item stands behind it.
last_or_middle :
    (h : ℕ) (older : Option ℕ) (y : Item) (ys : List Item)
    → Avoids h (y ∷ ys)
    → last_or (y ∷ ys) older ≢ some h
last_or_middle h older y ys a e = last_or-ne h older y ys a e refl

nothing_behind :
    (xs : List Item) (x : Item) (ys : List Item)
    → AreDistinct (xs ++ x ∷ ys)
    → last_or (xs ++ x ∷ ys) none ≡ some x.hash
    → xs ++ x ∷ ys ≡ (xs ++ ys) ++ x ∷ []
nothing_behind xs x [] d e = ap (λ (z : List Item). z ++ x ∷ []) (sym (append-nil xs))
nothing_behind xs x (y ∷ ys) d e = absurd (
    last_or_middle x.hash (some x.hash) y ys (AreDistinct-append_right xs (x ∷ y ∷ ys) d).0
      (sym (last_or-append xs (x ∷ y ∷ ys) none) ∙ e))

move_other :
    (c c1 : SafetyRequestCache) (p : ℕ)
    → c.newest ≢ some p
    → detach p c ≡ some c1
    → move_to_newest p c ≡ append_newest p c1
unfolding move_to_newest
move_other c c1 p h e = ground arith

move_same : (c : SafetyRequestCache) (p : ℕ) → c.newest ≡ some p → move_to_newest p c ≡ some c
unfolding move_to_newest
move_same c p h = ground arith

count_in_rotate :
    (category : Text) (xs : List Item) (x : Item) (ys : List Item)
    → count_in category ((xs ++ ys) ++ x ∷ []) ≡ count_in category (xs ++ x ∷ ys)
count_in_rotate category xs x ys = ground (
  arith,
  count_in-append category (xs ++ ys) (x ∷ []),
  count_in-append category xs ys,
  count_in-append category xs (x ∷ ys),
)

-- To move an entry to the newest end.
pub move_to_newest_lem :
    (ttl limit : ℕ) (c : SafetyRequestCache) (xs : List Item) (x : Item) (ys : List Item)
    → Represents ttl limit c (xs ++ x ∷ ys)
    → (c' : SafetyRequestCache) × (move_to_newest x.hash c ≡ some c')
      × Represents ttl limit c' ((xs ++ ys) ++ x ∷ [])
move_to_newest_lem ttl limit c xs x ys r = elim (pointer_discrete c.newest (some x.hash)) [
  | yes last ↦ (
    c,
    move_same c x.hash last,
    subst (Represents ttl limit c)
        (nothing_behind xs x ys r.items_distinct (sym r.linked.last ∙ last)) r,
  )
  | no other ↦
      let (c1, e1, k1, x1, f1) = detach_lem c xs x ys r.items_distinct r.linked in
      let d = middle_distinct xs x ys r.items_distinct in
      let a = middle-Avoids xs x ys r.items_distinct in
      let (c2, e2, k2, f2) = append_newest_lem c1 (xs ++ ys) x none none d a k1 x1 in
      (
        c2,
        move_other c c1 x.hash other e1 ∙ e2,
        record {
          linked = k2;
          items_distinct = AreDistinct-end (xs ++ ys) x d a;
          entries_distinct = f2.distinct (f1.distinct r.entries_distinct);
          absent = λ k b.
              let b' = Avoids-rotate k xs x ys b in f2.others k b ∙ f1.others k b' ∙ r.absent k b';
          size = omega (
            arith,
            f2.size,
            f1.size,
            r.size,
            length-append (xs ++ ys) (x ∷ []),
            length-append xs ys,
            length-append xs (x ∷ ys),
          );
          counts = λ category h.
              ap (category_count category) (f2.categories ∙ f1.categories)
              ∙ r.counts category h
              ∙ sym (count_in_rotate category xs x ys);
          same_ttl = f2.ttl ∙ f1.ttl ∙ r.same_ttl;
          same_limit = f2.max_entries ∙ f1.max_entries ∙ r.same_limit;
        },
      )
]

count_in_end :
    (category : Text) (l : List Item) (x : Item) {n : ℕ}
    → n ≡ count_in category l
    → ite (Text-discrete x.category category) (suc n) n ≡ count_in category (l ++ x ∷ [])
count_in_end category l x e = ground (arith, count_in-append category l (x ∷ []))

-- To insert an entry for a hash that is not there.
pub insert_lem :
    (ttl limit expires_at : ℕ) (reason category : Text) (h : ℕ) (c : SafetyRequestCache)
    (l : List Item)
    → Avoids h l
    → Represents ttl limit c l
    → (c' : SafetyRequestCache) × (insert expires_at reason category h c ≡ some c')
      × Represents ttl limit c' (
          l
          ++ record { expires_at = expires_at; reason = reason; category = category; hash = h }
            ∷ [])
unfolding insert store
insert_lem ttl limit expires_at reason category h c l a r =
    let x : Item = record {
      expires_at = expires_at;
      reason = reason;
      category = category;
      hash = h;
    } in
    let c1 = store h (node x none none) c in
    let c2 = increment_category category c1 in
    let same = increment_links category c1 in
    let fresh = r.absent h a in
    let k1 : IsLinked c1 l = record {
      segment =
          IsSegment-agree c.entries c1.entries none none l
            (AgreeOn-put c.entries h (node x none none) l a) r.linked.segment;
      first = r.linked.first;
      last = r.linked.last;
    } in
    let k2 = IsLinked-same c1 c2 l same.0 same.1 same.2 k1 in
    let x2 =
      ap (get ℕ_discrete h) same.0 ∙ get-put_self ℕ_discrete h (node x none none) c.entries in
    let (c3, e3, k3, f3) = append_newest_lem c2 l x none none r.items_distinct a k2 x2 in
    (
      c3,
      e3,
      record {
        linked = k3;
        items_distinct = AreDistinct-end l x r.items_distinct a;
        entries_distinct =
            f3.distinct (
              rw same.0
                (put-Distinct ℕ_discrete h (node x none none) c.entries r.entries_distinct));
        absent = λ k b.
            let P = λ (z : Item). z.hash ≢ k in
            f3.others k b
            ∙ ap (get ℕ_discrete k) same.0
            ∙ get-put_ne ℕ_discrete k h (node x none none) c.entries
                (All-append_right P l (x ∷ []) b).0
            ∙ r.absent k (All-append_left P l (x ∷ []) b);
        size = omega (
          arith,
          f3.size,
          ap length same.0,
          length-put_new ℕ_discrete h (node x none none) c.entries fresh,
          r.size,
          length-append l (x ∷ []),
        );
        counts = λ k e.
            ap (category_count k) f3.categories
            ∙ category_count-increment k category c1 e
            ∙ count_in_end k l x (r.counts k e);
        same_ttl = f3.ttl ∙ same.3 ∙ r.same_ttl;
        same_limit = f3.max_entries ∙ same.4 ∙ r.same_limit;
      },
    )
