-- ===== src/Basispoints/Loops.antt =====
-- The loops over the elements end, with what they promise: what idles too long is gone, and what is
-- left fits.
use airgate_openai.Base.{
  ltb, if◌then◌else◌, ltb→lt, ltb→le, Bool-cases, if_true, if_false, length, drop, All, List-cases,
  ℕ, zero, suc, ◌-◌, ◌≤◌, ◌<◌, ◌≡◌, refl, sym, ap, ◌∙◌, ◌≢◌, inl, inr, true, false, ◌||◌, some, [],
  ◌∷◌, arith,
}
use mathlib.Core.Path.{subst}
use airgate_openai.Basispoints.Elements.{
  Entry, Order, Elements, replay_cache_idle_ttl, element_at, remove_at, remove, expire, evict,
}
use airgate_openai.Basispoints.Order.{weights}
use airgate_openai.Basispoints.Kept.{Kept, remove-Kept, remove_present}

module _ {P : Type 0} where
  -- No element has idled for the time to live, or longer.
  abbrev pub Fresh : ℕ → Order P → Type 0
  Fresh now o = All (λ x. now - x.1.used < replay_cache_idle_ttl) o

  -- The elements stand in the order of their use, which began at `t` or later.
  abbrev pub Sorted : ℕ → Order P → Type 0
  Sorted t [] = Unit
  Sorted t (x ∷ o) = (t ≤ x.1.used) × Sorted x.1.used o

  abbrev pub LastIs : ℕ × Entry P → Order P → Type 0
  LastIs x [] = ⊥
  LastIs x (y ∷ []) = x ≡ y
  LastIs x (y ∷ z ∷ o) = LastIs x (z ∷ o)

  Fresh-Sorted :
      (now t : ℕ) (o : Order P) → now - t < replay_cache_idle_ttl → Sorted t o → Fresh now o
  Fresh-Sorted now t [] h s = tt
  Fresh-Sorted now t (x ∷ o) h s =
      let l : now - x.1.used < replay_cache_idle_ttl = omega (arith, h, s.0) in
      (l, Fresh-Sorted now x.1.used o l s.1)

  front_at :
      (x : ℕ × Entry P) (o : Order P)
      → (element_at x.0 (x ∷ o) ≡ some x.1) × (remove_at x.0 (x ∷ o) ≡ o)
  unfolding element_at remove_at
  front_at x o = (ground arith, ground arith)

  pub Sorted-weaken : (t u : ℕ) (o : Order P) → t ≤ u → Sorted u o → Sorted t o
  Sorted-weaken t u [] l s = tt
  Sorted-weaken t u (x ∷ o) l s = (omega (arith, l, s.0), s.1)

  -- What is left of `s` without its front.
  record Shorter (t : ℕ) (s r : Elements P) : Type 0 where
    pub kept : Kept r
    pub sorted : Sorted t r.order
    pub shorter : length s.order ≡ suc (length r.order)
    pub same_next : r.next ≡ s.next
    pub drops : (n : ℕ) → drop n r.order ≡ drop (suc n) s.order

  remove_front :
      (t : ℕ) (s : Elements P) (x : ℕ × Entry P) (o : Order P)
      → s.order ≡ x ∷ o
      → Kept s
      → Sorted t s.order
      → Shorter t s (remove x.0 s) × ((remove x.0 s).order ≡ o)
  remove_front t s x o h k w =
      let f = front_at x o in
      let g : element_at x.0 s.order ≡ some x.1 = ap (element_at x.0) h ∙ f.0 in
      let e = remove_present x.0 s x.1 g in
      let r : (remove x.0 s).order ≡ o =
        ap (λ (t : Elements P). t.order) e ∙ ap (remove_at x.0) h ∙ f.1 in
      let so = subst (Sorted t) h w in
      (
        record {
          kept = remove-Kept x.0 s x.1 k g;
          sorted = subst (Sorted t) (sym r) (Sorted-weaken t x.1.used o so.0 so.1);
          shorter = ap length h ∙ ap (λ ys. suc (length ys)) (sym r);
          same_next = ap (λ (t : Elements P). t.next) e;
          drops = λ n. ap (drop n) r ∙ sym (ap (drop (suc n)) h);
        },
        r,
      )

  expire_empty : (n now : ℕ) (s : Elements P) → s.order ≡ [] → expire (suc n) now s ≡ some s
  unfolding expire
  expire_empty n now s h = ground arith

  expire_step :
      (n now : ℕ) (s : Elements P) (x : ℕ × Entry P) (o : Order P)
      → s.order ≡ x ∷ o
      → expire (suc n) now s ≡ (
          if ltb (now - x.1.used) replay_cache_idle_ttl
          then some s
          else expire n now (remove x.0 s))
  unfolding expire
  expire_step n now s x o h = ground arith

  -- What the loop over idle elements leaves.
  pub record Expired (now t : ℕ) (s r : Elements P) : Type 0 where
    pub kept : Kept r
    pub sorted : Sorted t r.order
    pub fresh : Fresh now r.order
    pub same_next : r.next ≡ s.next
    pub suffix : (n : ℕ) × (r.order ≡ drop n s.order)
    pub stays :
        (a : ℕ) (e : Entry P)
        → now - e.used < replay_cache_idle_ttl
        → element_at a s.order ≡ some e
        → element_at a r.order ≡ some e

  not_front :
      (now a : ℕ) (d : Entry P) (x : ℕ × Entry P) (o : Order P)
      → now - d.used < replay_cache_idle_ttl
      → replay_cache_idle_ttl ≤ now - x.1.used
      → element_at a (x ∷ o) ≡ some d
      → element_at a o ≡ some d
  unfolding element_at
  not_front now a d x o l f h = ground arith

  -- The loop over idle elements ends, keeps what holds of the elements, and leaves none that idled.
  pub expire-Expired :
      (n now t : ℕ) (s : Elements P)
      → length s.order < n
      → Kept s
      → Sorted t s.order
      → (r : Elements P) × (expire n now s ≡ some r) × Expired now t s r
  expire-Expired zero now t s l k o = ground arith
  expire-Expired (suc n) now t s l k o = elim (List-cases s.order) [
    | inl e ↦ (
      s,
      expire_empty n now s e,
      record {
        kept = k;
        sorted = o;
        fresh = subst (Fresh now) (sym e) tt;
        same_next = refl;
        suffix = (0, refl);
        stays = λ a d l h. h;
      },
    )
    | inr (x, xs, e) ↦
        let so = subst (Sorted t) e o in
        elim (Bool-cases (ltb (now - x.1.used) replay_cache_idle_ttl)) [
          | inl f ↦
              let h = ltb→lt (now - x.1.used) replay_cache_idle_ttl f in
              (
                s,
                expire_step n now s x xs e ∙ if_true _ _ f,
                record {
                  kept = k;
                  sorted = o;
                  fresh = subst (Fresh now) (sym e) (h, Fresh-Sorted now x.1.used xs h so.1);
                  same_next = refl;
                  suffix = (0, refl);
                  stays = λ a d l h. h;
                },
              )
          | inr f ↦
              let (q, e') = remove_front t s x xs e k o in
              let l' : length (remove x.0 s).order < n = omega (arith, l, q.shorter) in
              let (r, g, p) = expire-Expired n now t (remove x.0 s) l' q.kept q.sorted in
              (
                r,
                expire_step n now s x xs e ∙ if_false _ _ f ∙ g,
                record {
                  kept = p.kept;
                  sorted = p.sorted;
                  fresh = p.fresh;
                  same_next = p.same_next ∙ q.same_next;
                  suffix = (suc p.suffix.0, p.suffix.1 ∙ q.drops p.suffix.0);
                  stays = λ a d l h. p.stays a d l (
                      subst (λ ys. element_at a ys ≡ some d) (sym e')
                        (not_front now a d x xs l (ltb→le (now - x.1.used) replay_cache_idle_ttl f)
                          (subst (λ ys. element_at a ys ≡ some d) e h)));
                },
              )
        ]
  ]

  evict_step :
      (m b n : ℕ) (s : Elements P) (x : ℕ × Entry P) (o : Order P)
      → s.order ≡ x ∷ o
      → evict m b (suc n) s
        ≡ (if ltb m (length s.entries) || ltb b s.bytes then evict m b n (remove x.0 s) else some s)
  unfolding evict
  evict_step m b n s x o h = ground arith

  evict_stop :
      (m b n : ℕ) (s : Elements P)
      → (ltb m (length s.entries) || ltb b s.bytes) ≡ false
      → evict m b (suc n) s ≡ some s
  unfolding evict
  evict_stop m b n s h = ground arith

  -- What the loop that evicts leaves: the last element stays, if it fits alone.
  pub record Evicted (max_entries max_bytes t : ℕ) (s r : Elements P) : Type 0 where
    pub kept : Kept r
    pub sorted : Sorted t r.order
    pub few : length r.entries ≤ max_entries
    pub small : r.bytes ≤ max_bytes
    pub same_next : r.next ≡ s.next
    pub suffix : (n : ℕ) × (r.order ≡ drop n s.order)
    pub last :
        (x : ℕ × Entry P)
        → 1 ≤ max_entries
        → x.1.weight ≤ max_bytes
        → LastIs x s.order
        → LastIs x r.order

  some_left :
      (m b : ℕ) (s : Elements P)
      → Kept s
      → (ltb m (length s.entries) || ltb b s.bytes) ≡ true
      → s.order ≢ []
  some_left m b s k f e =
      let x = k.as_many ∙ ap length e in let y = k.sums ∙ ap weights e in ground arith

  last_stays :
      (m b : ℕ) (s : Elements P) (x y : ℕ × Entry P) (o : Order P)
      → Kept s
      → s.order ≡ x ∷ o
      → 1 ≤ m
      → y.1.weight ≤ b
      → (ltb m (length s.entries) || ltb b s.bytes) ≡ true
      → LastIs y (x ∷ o)
      → LastIs y o
  last_stays m b s x y [] k e one fits f z =
      let u = k.as_many ∙ ap length e in
      let v = k.sums ∙ ap weights e in
      let w = ap (λ (q : ℕ × Entry P). q.1.weight) z in ground arith
  last_stays m b s x y (q ∷ o) k e one fits f z = z

  pub evict-Evicted :
      (m b n t : ℕ) (s : Elements P)
      → length s.order < n
      → Kept s
      → Sorted t s.order
      → (r : Elements P) × (evict m b n s ≡ some r) × Evicted m b t s r
  evict-Evicted m b zero t s l k o = ground arith
  evict-Evicted m b (suc n) t s l k o =
      elim (Bool-cases (ltb m (length s.entries) || ltb b s.bytes)) [
        | inr f ↦ (
          s,
          evict_stop m b n s f,
          record {
            kept = k;
            sorted = o;
            few = ground arith;
            small = ground arith;
            same_next = refl;
            suffix = (0, refl);
            last = λ x one fits y. y;
          },
        )
        | inl f ↦ elim (List-cases s.order) [
          | inl e ↦ absurd (some_left m b s k f e)
          | inr (x, xs, e) ↦
              let (q, e') = remove_front t s x xs e k o in
              let l' : length (remove x.0 s).order < n = omega (arith, l, q.shorter) in
              let (r, g, p) = evict-Evicted m b n t (remove x.0 s) l' q.kept q.sorted in
              (
                r,
                evict_step m b n s x xs e ∙ if_true _ _ f ∙ g,
                record {
                  kept = p.kept;
                  sorted = p.sorted;
                  few = p.few;
                  small = p.small;
                  same_next = p.same_next ∙ q.same_next;
                  suffix = (suc p.suffix.0, p.suffix.1 ∙ q.drops p.suffix.0);
                  last = λ y one fits z. p.last y one fits (
                      subst (LastIs y) (sym e')
                        (last_stays m b s x y xs k e one fits f (subst (LastIs y) e z)));
                },
              )
        ]
      ]
