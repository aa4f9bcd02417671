-- ===== src/Safety/Loop.antt =====
-- `addHashesWithReasonCategoryAndLimits` of safety_request_cache.go implements the specification for
-- each hash: a refresh where it is there, and otherwise an insertion after the room is made.
use airgate_openai.Base.{
  leb, if◌then◌else◌, Bool-cases, Option-cases, length, Text, Text-discrete, is_empty, get, put,
  Distinct, ℕ, ◌<◌, ◌≡◌, refl, sym, ap, ◌∙◌, ◌≢◌, inl, inr, if_pos, if_neg, true, false, none, some,
  List, [], ◌∷◌, ◌++◌, ℕ_discrete,
}
use mathlib.Core.Path.{subst}
use airgate_openai.Safety.Cache.{
  Entry, SafetyRequestCache, store, increment_category, decrement_category, make_room,
}
use airgate_openai.Safety.Store.{recategorize, refresh, insert, add_hash, add_loop}
use airgate_openai.Safety.Segment.{Item, node, head_or, last_or, Avoids, IsSegment-append_right}
use airgate_openai.Safety.Spec.{
  drop_oldest, find, refreshed, spec_add, spec_add_all, Represents, category_count-increment,
  category_count-decrement,
}
use airgate_openai.Safety.Lists.{find-none, find_split}
use airgate_openai.Safety.Refine.{decrement_links, increment_links, IsLinked-same, make_room_lem}
use airgate_openai.Safety.Adds.{move_to_newest_lem, insert_lem}
use airgate_openai.Safety.Refresh.{restated, replaced, rewritten, renewed_lem, moved_count}

recategorize_empty :
    (h : ℕ) (e : Entry) (category : Text) (c : SafetyRequestCache)
    → is_empty category ≡ true
    → recategorize h e category c ≡ c
unfolding recategorize
recategorize_empty h e category c t = rw t

recategorize_same :
    (h : ℕ) (e : Entry) (category : Text) (c : SafetyRequestCache)
    → is_empty category ≡ false
    → e.category ≡ category
    → recategorize h e category c ≡ c
unfolding recategorize
recategorize_same h e category c t p = rw t (if_pos (Text-discrete e.category category) p _ _)

recategorize_other :
    (h : ℕ) (e : Entry) (category : Text) (c : SafetyRequestCache)
    → is_empty category ≡ false
    → e.category ≢ category
    → recategorize h e category c
      ≡ increment_category category
          (store h (record e { category = category }) (decrement_category e.category c))
unfolding recategorize
recategorize_other h e category c t p = rw t (if_neg (Text-discrete e.category category) p _ _)

abbrev recategorized : Text → Item → Item
recategorized category x = record x {
  category = if is_empty category then x.category else category;
}

changed_lem :
    (ttl limit : ℕ) (category : Text) (c : SafetyRequestCache) (xs : List Item) (x : Item)
    (ys : List Item)
    → Represents ttl limit c (xs ++ x ∷ ys)
    → let x' = record x { category = category } in
      Represents ttl limit
        (increment_category category (
          store x.hash
            (node x' (last_or xs none) (head_or ys none))
            (decrement_category x.category c)))
        (xs ++ x' ∷ ys)
unfolding store
changed_lem ttl limit category c xs x ys r =
    let x' = record x { category = category } in
    let e = node x' (last_or xs none) (head_or ys none) in
    let (k, f) = replaced ttl limit x.expires_at x.reason category c xs x ys r in
    let c1 = decrement_category x.category c in
    let c2 = store x.hash e c1 in
    let c3 = increment_category category c2 in
    let d = decrement_links x.category c in
    let i = increment_links category c2 in
    let entries = i.0 ∙ ap (put ℕ_discrete x.hash e) d.0 in
    rewritten ttl limit x.expires_at x.reason category c c3 xs x ys r
      (IsLinked-same (store x.hash e c) c3 (xs ++ x' ∷ ys) entries (i.1 ∙ d.1) (i.2 ∙ d.2) k)
      (record {
        size = ap length entries ∙ f.size;
        distinct = λ z. subst (Distinct ℕ_discrete) (sym entries) (f.distinct z);
        others = λ j a. ap (get ℕ_discrete j) entries ∙ f.others j a;
        categories = refl;
        ttl = i.3 ∙ d.3;
        max_entries = i.4 ∙ d.4;
      })
      (λ g h.
        category_count-increment g category c2 h
        ∙ moved_count g x.category category xs x ys (r.counts g h) refl
            (category_count-decrement g x.category c h))

recategorize_lem :
    (ttl limit : ℕ) (category : Text) (c : SafetyRequestCache) (xs : List Item) (x : Item)
    (ys : List Item)
    → Represents ttl limit c (xs ++ x ∷ ys)
    → Represents ttl limit
        (recategorize x.hash (node x (last_or xs none) (head_or ys none)) category c)
        (xs ++ recategorized category x ∷ ys)
recategorize_lem ttl limit category c xs x ys r =
    let e = node x (last_or xs none) (head_or ys none) in
    elim (Bool-cases (is_empty category)) [
      | inl t ↦ rw (recategorize_empty x.hash e category c t, t) r
      | inr t ↦ elim (Text-discrete x.category category) [
        | yes p ↦ rw (recategorize_same x.hash e category c t p, t) (rw (← p) r)
        | no q ↦
            rw (recategorize_other x.hash e category c t q, t)
              (changed_lem ttl limit category c xs x ys r)
      ]
    ]

-- A refresh makes the item the newest, with its new time and what else is given.
refresh_lem :
    (ttl limit expires_at : ℕ) (reason category : Text) (c : SafetyRequestCache) (xs : List Item)
    (x : Item) (ys : List Item)
    → Represents ttl limit c (xs ++ x ∷ ys)
    → (c' : SafetyRequestCache) × (refresh expires_at reason category x.hash
          (node x (last_or xs none) (head_or ys none))
          c
        ≡ some c')
      × Represents ttl limit c' ((xs ++ ys) ++ refreshed expires_at reason category x ∷ [])
unfolding refresh refreshed
refresh_lem ttl limit expires_at reason category c xs x ys r =
    let x1 = restated expires_at (if is_empty reason then x.reason else reason) x.category x in
    let r1 =
      renewed_lem ttl limit expires_at (if is_empty reason then x.reason else reason) c xs x ys r in
    let r2 = recategorize_lem ttl limit category _ xs x1 ys r1 in
    move_to_newest_lem ttl limit _ xs (recategorized category x1) ys r2

Avoids-drop_oldest : (h room : ℕ) (l : List Item) → Avoids h l → Avoids h (drop_oldest room l)
unfolding drop_oldest
Avoids-drop_oldest h room [] a = a
Avoids-drop_oldest h room (x ∷ xs) a = elim (Bool-cases (leb room (length (x ∷ xs)))) [
  | inl t ↦ rw t (Avoids-drop_oldest h room xs a.1)
  | inr t ↦ rw t a
]

found_hash :
    (limit expires_at : ℕ) (reason category : Text) (h : ℕ) (c : SafetyRequestCache) (e : Entry)
    → get ℕ_discrete h c.entries ≡ some e
    → add_hash limit expires_at reason category h c ≡ refresh expires_at reason category h e c
unfolding add_hash
found_hash limit expires_at reason category h c e p = rw (p, add_hash)

new_hash :
    (limit expires_at : ℕ) (reason category : Text) (h : ℕ) (c c' : SafetyRequestCache)
    → get ℕ_discrete h c.entries ≡ none
    → make_room limit c ≡ some c'
    → add_hash limit expires_at reason category h c ≡ insert expires_at reason category h c'
unfolding add_hash
new_hash limit expires_at reason category h c c' p q = rw (p, add_hash, q)

pub add_hash_lem :
    (ttl limit room expires_at : ℕ) (reason category : Text) (h : ℕ) (c : SafetyRequestCache)
    (l : List Item)
    → 0 < room
    → Represents ttl limit c l
    → (c' : SafetyRequestCache) × (add_hash room expires_at reason category h c ≡ some c')
      × Represents ttl limit c' (spec_add room expires_at reason category h l)
unfolding spec_add
add_hash_lem ttl limit room expires_at reason category h c l p r = elim (Option-cases (find h l)) [
  | inl missing ↦
      let a = find-none h l missing in
      let (c1, e1, r1) = make_room_lem ttl limit room c l p r in
      let (c2, e2, r2) =
        insert_lem ttl limit expires_at reason category h c1 (drop_oldest room l)
          (Avoids-drop_oldest h room l a) r1 in
      (
        c2,
        new_hash room expires_at reason category h c c1 (r.absent h a) e1 ∙ e2,
        rw (missing, spec_add) r2,
      )
  | inr (x, found) ↦
      let (xs, ys, l_eq, h_eq, rest) = find_split h l found in
      let r' = subst (Represents ttl limit c) l_eq r in
      let s = IsSegment-append_right c.entries none none xs (x ∷ ys) r'.linked.segment in
      let (c1, e1, r1) = refresh_lem ttl limit expires_at reason category c xs x ys r' in
      (
        c1,
        rw (← h_eq) (found_hash room expires_at reason category x.hash c _ s.0 ∙ e1),
        rw (found, spec_add, rest) r1,
      )
]

-- The loop over the hashes of a call ends, and adds them one by one.
pub add_loop_lem :
    (ttl limit room expires_at : ℕ) (reason category : Text) (hs : List ℕ) (c : SafetyRequestCache)
    (l : List Item)
    → 0 < room
    → Represents ttl limit c l
    → (c' : SafetyRequestCache) × (add_loop room expires_at reason category hs c ≡ some c')
      × Represents ttl limit c' (spec_add_all room expires_at reason category hs l)
unfolding add_loop spec_add_all
add_loop_lem ttl limit room expires_at reason category [] c l p r = (c, refl, r)
add_loop_lem ttl limit room expires_at reason category (h ∷ hs) c l p r =
    let (c1, e1, r1) = add_hash_lem ttl limit room expires_at reason category h c l p r in
    let (c2, e2, r2) =
      add_loop_lem ttl limit room expires_at reason category hs c1
        (spec_add room expires_at reason category h l) p r1 in
    (c2, rw e1 e2, r2)
