-- ===== src/Safety/Refine.antt =====
-- The removals of safety_request_cache.go implement those of the specification: the eviction of the
-- oldest entry, and the loops that purge and make room.
use airgate_openai.Base.{
  ltb, leb, Bool-cases, length, Text, Text-discrete, is_empty, get, delete, get-delete_self,
  get-delete_ne, delete-Distinct, length-delete, ℕ, zero, suc, ◌+◌, ◌-◌, ◌<◌, ◌≡◌, sym, ap, ◌∙◌,
  inl, inr, ite, true, false, none, some, List, [], ◌∷◌, arith, ℕ_discrete,
}
use mathlib.Core.Path.{subst}
use airgate_openai.Safety.Cache.{
  Entry, SafetyRequestCache, category_count, increment_category, decrement_category, evict,
  evict_oldest, purge_loop, purge_expired, make_room_loop, make_room,
}
use airgate_openai.Safety.Segment.{Item, node, IsSegment, Avoids, IsSegment-agree, AgreeOn-delete}
use airgate_openai.Safety.Chain.{IsLinked}
use airgate_openai.Safety.Moves.{detach_lem}
use airgate_openai.Safety.Spec.{
  drop_expired, drop_oldest, count_in, Represents, category_count-decrement,
}

-- The counts change the categories alone.
pub decrement_links :
    (k : Text) (c : SafetyRequestCache)
    → let c' = decrement_category k c in
      (c'.entries ≡ c.entries)
      × (c'.oldest ≡ c.oldest)
      × (c'.newest ≡ c.newest)
      × (c'.ttl ≡ c.ttl)
      × (c'.max_entries ≡ c.max_entries)
unfolding decrement_category
decrement_links k c = ground arith

pub increment_links :
    (k : Text) (c : SafetyRequestCache)
    → let c' = increment_category k c in
      (c'.entries ≡ c.entries)
      × (c'.oldest ≡ c.oldest)
      × (c'.newest ≡ c.newest)
      × (c'.ttl ≡ c.ttl)
      × (c'.max_entries ≡ c.max_entries)
unfolding increment_category
increment_links k c = ground arith

-- To delete an entry that is in no chain.
pub IsLinked-delete :
    (c : SafetyRequestCache) (h : ℕ) (l : List Item)
    → Avoids h l
    → IsLinked c l
    → IsLinked (record c { entries = delete ℕ_discrete h c.entries }) l
IsLinked-delete c h l a k = record {
  segment =
      IsSegment-agree c.entries (delete ℕ_discrete h c.entries) none none l
        (AgreeOn-delete c.entries h l a) k.segment;
  first = k.first;
  last = k.last;
}

pub IsLinked-same :
    (c c' : SafetyRequestCache) (l : List Item)
    → c'.entries ≡ c.entries
    → c'.oldest ≡ c.oldest
    → c'.newest ≡ c.newest
    → IsLinked c l
    → IsLinked c' l
IsLinked-same c c' l e o n k = record {
  segment = subst (λ m. IsSegment m none l none) (sym e) k.segment;
  first = o ∙ k.first;
  last = n ∙ k.last;
}

evict_at : (c : SafetyRequestCache) (p : ℕ) → c.oldest ≡ some p → evict_oldest c ≡ evict p c
unfolding evict_oldest
evict_at c p h = ground arith

-- To evict the oldest entry drops the first item.
pub evict_lem :
    (ttl limit : ℕ) (c : SafetyRequestCache) (x : Item) (xs : List Item)
    → Represents ttl limit c (x ∷ xs)
    → (c' : SafetyRequestCache) × (evict_oldest c ≡ some c') × Represents ttl limit c' xs
unfolding evict
evict_lem ttl limit c x xs r =
    let (c1, e1, k1, x1, f1) = detach_lem c [] x xs r.items_distinct r.linked in
    let c2 = record c1 { entries = delete ℕ_discrete x.hash c1.entries } in
    let same = decrement_links x.category c2 in
    (
      decrement_category x.category c2,
      evict_at c x.hash r.linked.first ∙ rw (e1, x1),
      record {
        linked =
            IsLinked-same c2 (decrement_category x.category c2) xs same.0 same.1 same.2
              (IsLinked-delete c1 x.hash xs r.items_distinct.0 k1);
        items_distinct = r.items_distinct.1;
        entries_distinct =
            rw same.0
              (delete-Distinct ℕ_discrete x.hash c1.entries (f1.distinct r.entries_distinct));
        absent = λ k a. rw same.0 (evicted_absent c1 x.hash k (f1.others k) a (r.absent k));
        size = rw same.0 (
            omega (
              arith,
              length-delete ℕ_discrete x.hash (node x none none) c1.entries
                  (f1.distinct r.entries_distinct) x1,
              f1.size,
              r.size,
            ));
        counts = λ category h.
            category_count-decrement category x.category c2 h
            ∙ counted category h (ap (category_count category) f1.categories ∙ r.counts category h);
        same_ttl = same.3 ∙ f1.ttl ∙ r.same_ttl;
        same_limit = same.4 ∙ f1.max_entries ∙ r.same_limit;
      },
    )
  where
    counted :
        (category : Text)
        → is_empty category ≡ false
        → {n : ℕ} → n ≡ count_in category (x ∷ xs)
        → ite (Text-discrete x.category category) (n - 1) n ≡ count_in category xs
    counted category h e = ground arith

    evicted_absent :
        (c1 : SafetyRequestCache) (h k : ℕ)
        → ((Avoids k (x ∷ xs)) → get ℕ_discrete k c1.entries ≡ get ℕ_discrete k c.entries)
        → Avoids k xs
        → (Avoids k (x ∷ xs) → get ℕ_discrete k c.entries ≡ none)
        → get ℕ_discrete k (delete ℕ_discrete x.hash c1.entries) ≡ none
    evicted_absent c1 h k same a gone = elim (ℕ_discrete x.hash k) [
      | yes p ↦ rw p (get-delete_self ℕ_discrete k c1.entries)
      | no q ↦ get-delete_ne ℕ_discrete k x.hash c1.entries q ∙ same (q, a) ∙ gone (q, a)
    ]

purge_empty :
    (fuel now : ℕ) (c : SafetyRequestCache) → c.oldest ≡ none → purge_loop (suc fuel) now c ≡ some c
unfolding purge_loop
purge_empty fuel now c h = ground arith

purge_stop :
    (fuel now : ℕ) (c : SafetyRequestCache) (p : ℕ) (e : Entry)
    → c.oldest ≡ some p
    → get ℕ_discrete p c.entries ≡ some e
    → ltb now e.expires_at ≡ true
    → purge_loop (suc fuel) now c ≡ some c
unfolding purge_loop
purge_stop fuel now c p e h g t = ground arith

purge_go :
    (fuel now : ℕ) (c c' : SafetyRequestCache) (p : ℕ) (e : Entry)
    → c.oldest ≡ some p
    → get ℕ_discrete p c.entries ≡ some e
    → ltb now e.expires_at ≡ false
    → evict_oldest c ≡ some c'
    → purge_loop (suc fuel) now c ≡ purge_loop fuel now c'
unfolding purge_loop
purge_go fuel now c c' p e h g t v = ground arith

-- With enough fuel the purge ends, and keeps the items from the first that is not expired.
pub purge_loop_lem :
    (ttl limit fuel now : ℕ) (c : SafetyRequestCache) (l : List Item)
    → length l < fuel
    → Represents ttl limit c l
    → (c' : SafetyRequestCache) × (purge_loop fuel now c ≡ some c')
      × Represents ttl limit c' (drop_expired now l)
unfolding drop_expired
purge_loop_lem ttl limit zero now c l f r = absurd (omega arith)
purge_loop_lem ttl limit (suc fuel) now c [] f r = (c, purge_empty fuel now c r.linked.first, r)
purge_loop_lem ttl limit (suc fuel) now c (x ∷ xs) f r =
    let o = r.linked.first in
    let s = r.linked.segment.0 in
    elim (Bool-cases (ltb now x.expires_at)) [
      | inl lives ↦ (c, purge_stop fuel now c x.hash _ o s lives, rw lives r)
      | inr expired ↦
          let (c1, e1, r1) = evict_lem ttl limit c x xs r in
          let (c2, e2, r2) = purge_loop_lem ttl limit fuel now c1 xs (omega arith) r1 in
          (c2, purge_go fuel now c c1 x.hash _ o s expired e1 ∙ e2, rw expired r2)
    ]

room_done :
    (fuel room : ℕ) (c : SafetyRequestCache)
    → leb room (length c.entries) ≡ false
    → make_room_loop (suc fuel) room c ≡ some c
unfolding make_room_loop
room_done fuel room c t = ground arith

room_go :
    (fuel room : ℕ) (c c' : SafetyRequestCache)
    → leb room (length c.entries) ≡ true
    → evict_oldest c ≡ some c'
    → make_room_loop (suc fuel) room c ≡ make_room_loop fuel room c'
unfolding make_room_loop
room_go fuel room c c' t v = ground arith

-- Under a positive limit the loop that makes room ends, and keeps the newest items.
pub make_room_loop_lem :
    (ttl limit fuel room : ℕ) (c : SafetyRequestCache) (l : List Item)
    → 0 < room
    → length l < fuel
    → Represents ttl limit c l
    → (c' : SafetyRequestCache) × (make_room_loop fuel room c ≡ some c')
      × Represents ttl limit c' (drop_oldest room l)
unfolding drop_oldest
make_room_loop_lem ttl limit zero room c l p f r = absurd (omega arith)
make_room_loop_lem ttl limit (suc fuel) room c [] p f r =
    (c, room_done fuel room c (ground (arith, r.size)), r)
make_room_loop_lem ttl limit (suc fuel) room c (x ∷ xs) p f r =
    elim (Bool-cases (leb room (length (x ∷ xs)))) [
      | inl full ↦
          let (c1, e1, r1) = evict_lem ttl limit c x xs r in
          let (c2, e2, r2) = make_room_loop_lem ttl limit fuel room c1 xs p (omega arith) r1 in
          (c2, room_go fuel room c c1 (rw r.size full) e1 ∙ e2, rw full r2)
      | inr free ↦ (c, room_done fuel room c (rw r.size free), rw free r)
    ]

-- Purging a cache that represents items ends without a fault and drops the items at the front that are
-- expired at `now`, and no other.
pub purge_expired_lem :
    (ttl limit now : ℕ) (c : SafetyRequestCache) (l : List Item)
    → Represents ttl limit c l
    → (c' : SafetyRequestCache) × (purge_expired now c ≡ some c')
      × Represents ttl limit c' (drop_expired now l)
unfolding purge_expired
purge_expired_lem ttl limit now c l r =
    purge_loop_lem ttl limit (length c.entries + 1) now c l (omega (arith, r.size)) r

pub make_room_lem :
    (ttl limit room : ℕ) (c : SafetyRequestCache) (l : List Item)
    → 0 < room
    → Represents ttl limit c l
    → (c' : SafetyRequestCache) × (make_room room c ≡ some c')
      × Represents ttl limit c' (drop_oldest room l)
unfolding make_room
make_room_lem ttl limit room c l p r =
    make_room_loop_lem ttl limit (length c.entries + 1) room c l p (omega (arith, r.size)) r
