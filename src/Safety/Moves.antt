-- ===== src/Safety/Moves.antt =====
-- `detachLocked` and `appendNewestLocked` of safety_request_cache.go on the chain of nodes.
use airgate_openai.Base.{
  All-append_left, All-append_right, get, get-put_self, ℕ, ◌≡◌, refl, sym, ap, ◌∙◌, ◌≢◌, Option,
  none, some, List, [], ◌∷◌, ◌++◌, ℕ_discrete,
}
use airgate_openai.Safety.Cache.{
  SafetyRequestCache, store, unlink_older, detach, link_newest, append_newest,
}
use airgate_openai.Safety.Segment.{
  Item, node, head_or, last_or, Avoids, AreDistinct, IsSegment-agree, AgreeOn-put, IsSegment-append,
  IsSegment-append_left, IsSegment-append_right,
}
use airgate_openai.Safety.Chain.{
  IsLinked, Keeps, AreDistinct-append_left, AreDistinct-append_right, AreApart-append,
  AreApart-symm, agree_apart, Keeps-store, unlink_older_lem, unlink_newer_lem,
}

pub head_or-append :
    (xs ys : List Item) (p : Option ℕ) → head_or (xs ++ ys) p ≡ head_or xs (head_or ys p)
head_or-append [] ys p = refl
head_or-append (x ∷ xs) ys p = refl

pub last_or-append :
    (xs ys : List Item) (p : Option ℕ) → last_or (xs ++ ys) p ≡ last_or ys (last_or xs p)
last_or-append [] ys p = refl
last_or-append (x ∷ xs) ys p = last_or-append xs ys (some x.hash)

Avoids-append_left : (k : ℕ) (xs ys : List Item) → Avoids k (xs ++ ys) → Avoids k xs
Avoids-append_left k xs ys a = All-append_left (λ (z : Item). z.hash ≢ k) xs ys a

Avoids-append_right : (k : ℕ) (xs ys : List Item) → Avoids k (xs ++ ys) → Avoids k ys
Avoids-append_right k xs ys a = All-append_right (λ (z : Item). z.hash ≢ k) xs ys a

-- To take the entry of `x` out of a chain: it is left with no links, and the chain is closed.
pub detach_lem :
    (c : SafetyRequestCache) (xs : List Item) (x : Item) (ys : List Item)
    → AreDistinct (xs ++ x ∷ ys)
    → IsLinked c (xs ++ x ∷ ys)
    → (c' : SafetyRequestCache) × (detach x.hash c ≡ some c')
      × IsLinked c' (xs ++ ys)
      × (get ℕ_discrete x.hash c'.entries ≡ some (node x none none))
      × Keeps c c' (xs ++ x ∷ ys)
unfolding detach
detach_lem c xs x ys d k =
    let dx = AreDistinct-append_left xs (x ∷ ys) d in
    let dy = AreDistinct-append_right xs (x ∷ ys) d in
    let apart = AreApart-append xs (x ∷ ys) d in
    let back = AreApart-symm xs ys apart.1 in
    let before = IsSegment-append_left c.entries none none xs (x ∷ ys) k.segment in
    let behind = IsSegment-append_right c.entries none none xs (x ∷ ys) k.segment in
    let (c1, e1, s1, o1, n1, k1) =
      unlink_older_lem c xs (some x.hash) (head_or ys none) dx before
        (k.first ∙ head_or-append xs (x ∷ ys) none) in
    let x1 = k1.others x.hash apart.0 ∙ behind.0 in
    let t1 =
      IsSegment-agree c.entries c1.entries (some x.hash) none ys (agree_apart c c1 xs ys k1 apart.1)
        behind.1 in
    let (c2, e2, s2, n2, o2, k2) =
      unlink_newer_lem c1 ys (some x.hash) (last_or xs none) dy.1 t1
        (n1 ∙ k.last ∙ last_or-append xs (x ∷ ys) none) in
    let x2 = k2.others x.hash dy.0 ∙ x1 in
    let t2 =
      IsSegment-agree c1.entries c2.entries none (head_or ys none) xs
        (agree_apart c1 c2 ys xs k2 back) s1 in
    let c3 = store x.hash (node x none none) c2 in
    let k3 =
      Keeps-store c2 x.hash (node x (last_or xs none) (head_or ys none)) (node x none none) (x ∷ [])
        x2 (λ j a. a.0) in
    (
      c3,
      rw (behind.0, e1, x1, e2, x2),
      record {
        segment =
            IsSegment-append c3.entries none none xs ys
              (IsSegment-agree c2.entries c3.entries none (head_or ys none) xs
                (AgreeOn-put c2.entries x.hash (node x none none) xs apart.0) t2)
              (IsSegment-agree c2.entries c3.entries (last_or xs none) none ys
                (AgreeOn-put c2.entries x.hash (node x none none) ys dy.0) s2);
        first = o2 ∙ o1 ∙ sym (head_or-append xs ys none);
        last = n2 ∙ sym (last_or-append xs ys none);
      },
      get-put_self ℕ_discrete x.hash (node x none none) c2.entries,
      record {
        size = k3.size ∙ k2.size ∙ k1.size;
        distinct = λ z. k3.distinct (k2.distinct (k1.distinct z));
        others = λ j a.
            let b = Avoids-append_right j xs (x ∷ ys) a in
            k3.others j (b.0, tt)
            ∙ k2.others j b.1
            ∙ k1.others j (Avoids-append_left j xs (x ∷ ys) a);
        categories = k3.categories ∙ k2.categories ∙ k1.categories;
        ttl = k3.ttl ∙ k2.ttl ∙ k1.ttl;
        max_entries = k3.max_entries ∙ k2.max_entries ∙ k1.max_entries;
      },
    )

link_newest-unlink_older :
    (n : Option ℕ) (p : ℕ) (c : SafetyRequestCache) → link_newest n p c ≡ unlink_older n (some p) c
unfolding link_newest unlink_older
link_newest-unlink_older none p c = refl
link_newest-unlink_older (some n) p c = refl

-- To put the entry of `x`, which is in the map and not in the chain, behind the newest.
pub append_newest_lem :
    (c : SafetyRequestCache) (l : List Item) (x : Item) (older newer : Option ℕ)
    → AreDistinct l
    → Avoids x.hash l
    → IsLinked c l
    → get ℕ_discrete x.hash c.entries ≡ some (node x older newer)
    → (c' : SafetyRequestCache) × (append_newest x.hash c ≡ some c')
      × IsLinked c' (l ++ x ∷ [])
      × Keeps c c' (l ++ x ∷ [])
unfolding append_newest
append_newest_lem c l x older newer d a k found =
    let x' = node x c.newest none in
    let c1 = store x.hash x' c in
    let k1 = Keeps-store c x.hash (node x older newer) x' (x ∷ []) found (λ j b. b.0) in
    let s1 =
      IsSegment-agree c.entries c1.entries none none l (AgreeOn-put c.entries x.hash x' l a)
        k.segment in
    let (c2, e2, s2, o2, n2, k2) = unlink_older_lem c1 l none (some x.hash) d s1 k.first in
    let e3 = ap (λ n. unlink_older n (some x.hash) c1) k.last ∙ e2 in
    let x2 = k2.others x.hash a ∙ get-put_self ℕ_discrete x.hash x' c.entries in
    (
      record c2 { newest = some x.hash },
      rw (found, link_newest-unlink_older, e3),
      record {
        segment =
            IsSegment-append c2.entries none none l (x ∷ []) s2
              (x2 ∙ ap (λ n. some (node x n none)) k.last, tt);
        first = o2 ∙ sym (head_or-append l (x ∷ []) none);
        last = sym (last_or-append l (x ∷ []) none);
      },
      record {
        size = k2.size ∙ k1.size;
        distinct = λ z. k2.distinct (k1.distinct z);
        others = λ j b.
            k2.others j (Avoids-append_left j l (x ∷ []) b)
            ∙ k1.others j (Avoids-append_right j l (x ∷ []) b);
        categories = k2.categories ∙ k1.categories;
        ttl = k2.ttl ∙ k1.ttl;
        max_entries = k2.max_entries ∙ k1.max_entries;
      },
    )
