-- ===== src/Encrypted/Laws.antt =====
-- What a rewrite removes, and what the inspection of a request finds.
use airgate_openai.Base.{
  length, get_elem?, any, length-append, Text, ℕ, suc, ◌+◌, ◌≡◌, refl, sym, ap, ◌∙◌, Bool, true,
  false, ◌||◌, Option, none, some, List, [], ◌∷◌, ◌++◌, map, arith,
}
use mathlib.Core.Path.{subst, subst₂, ap₂}
use mathlib.Core.List.{append_assoc, append-nil}
use airgate_openai.Safety.Cache.{SafetyRequestCache}
use airgate_openai.Safety.Store.{contains as contains_hash}
use airgate_openai.Safety.Segment.{Item}
use airgate_openai.Safety.Spec.{find, drop_expired}
use airgate_openai.Safety.Order.{if_alive, find-drop_expired}
use airgate_openai.Safety.Laws.{Holds, told, lookup_lem}
use airgate_openai.Encrypted.Session.{Session, should_remove, removals, inspect, inspect_all}

abbrev pub is_found : Option Item → Bool
is_found none = false
is_found (some x) = true

abbrev pub recorded : List Item → ℕ → ℕ → Bool
recorded l now h = is_found (if_alive now (find h l))

is_found-told : (o : Option Item) → (told o).1 ≡ is_found o
is_found-told none = refl
is_found-told (some x) = refl

alive_twice : (now : ℕ) (o : Option Item) → if_alive now (if_alive now o) ≡ if_alive now o
unfolding if_alive
alive_twice now none = refl
alive_twice now (some x) = ground arith

contains_lem :
    (ttl limit room : ℕ) (c : SafetyRequestCache) (l : List Item) (h now : ℕ)
    → Holds ttl limit room c l
    → (c' : SafetyRequestCache) × (contains_hash (some c) h now ≡ some (some c', recorded l now h))
      × Holds ttl limit room c' (drop_expired now l)
unfolding contains_hash
contains_lem ttl limit room c l h now k =
    let (c1, e1, k1) = lookup_lem ttl limit room c l h now k in
    (c1, rw (e1, is_found-told (if_alive now (find h l))), k1)

get_elem?-middle {ℓ} :
    {A : Type ℓ} (xs : List A) (y : A) (ys : List A) → get_elem? (xs ++ y ∷ ys) (length xs) ≡ some y
get_elem?-middle [] y ys = refl
get_elem?-middle (x ∷ xs) y ys = get_elem?-middle xs y ys

or_false : (a : Bool) → a ≡ (a || false)
or_false true = refl
or_false false = refl

should_remove_at :
    (s : Session) (b : Bool)
    → get_elem? s.matches s.removal_index ≡ some b
    → should_remove s
      ≡ (record s { removal_index = s.removal_index + 1; sanitized = s.sanitized || b }, b)
unfolding should_remove
should_remove_at s true h = ground arith
should_remove_at s false h = ground (arith, or_false s.sanitized)

length-end {ℓ} : {A : Type ℓ} (xs : List A) (y : A) → length xs + 1 ≡ length (xs ++ y ∷ [])
length-end xs y = omega (arith, length-append xs (y ∷ []))

or_assoc : (a b c : Bool) → ((a || b) || c) ≡ (a || (b || c))
or_assoc a b c = ground arith

removals_step :
    (n : ℕ) (s t : Session) (b : Bool)
    → should_remove s ≡ (t, b)
    → removals (suc n) s ≡ ((removals n t).0, b ∷ (removals n t).1)
unfolding removals
removals_step n s t b e = ap (λ (p : Session × Bool). let r = removals n p.0 in (r.0, p.1 ∷ r.1)) e

removals_from :
    (done rest : List Bool) (s : Session)
    → s.matches ≡ done ++ rest
    → s.removal_index ≡ length done
    → ((removals (length rest) s).1 ≡ rest)
      × ((removals (length rest) s).0.sanitized ≡ (s.sanitized || any (λ b. b) rest))
unfolding removals
removals_from done [] s m i = (refl, or_false s.sanitized)
removals_from done (b ∷ rest) s m i =
    let t = record s { removal_index = s.removal_index + 1; sanitized = s.sanitized || b } in
    let at =
      subst₂ (λ (ms : List Bool) (j : ℕ). get_elem? ms j ≡ some b) (sym m) (sym i)
        (get_elem?-middle done b rest) in
    let (r, z) =
      removals_from (done ++ b ∷ []) rest t (m ∙ sym (append_assoc done (b ∷ []) rest))
        (ap (λ n. n + 1) i ∙ length-end done b) in
    let step = removals_step (length rest) s t b (should_remove_at s b at) in
    (
      ap (λ (p : Session × List Bool). p.1) step ∙ ap (◌∷◌ b) r,
      ap (λ (p : Session × List Bool). p.0.sanitized) step
          ∙ z
          ∙ or_assoc s.sanitized b (any (λ c. c) rest),
    )

-- A rewrite that asks once for each ciphertext removes exactly those that matched, in their order,
-- and the session is then marked as sanitized if and only if one was removed.
pub removals_lem :
    (s : Session)
    → s.removal_index ≡ 0
    → s.sanitized ≡ false
    → ((removals (length s.matches) s).1 ≡ s.matches)
      × ((removals (length s.matches) s).0.sanitized ≡ any (λ b. b) s.matches)
removals_lem s i z =
    let (r, w) = removals_from [] s.matches s refl i in
    (r, w ∙ ap (λ b. b || any (λ c. c) s.matches) z)

abbrev plan : (ℕ → Text → ℕ) → ℕ → List Item → ℕ → List Text → List Bool
plan hash scope l now raws = map (λ raw. recorded l now (hash scope raw)) raws

recorded_live :
    (ttl limit room : ℕ) (c : SafetyRequestCache) (l : List Item) (now h : ℕ)
    → Holds ttl limit room c l
    → recorded (drop_expired now l) now h ≡ recorded l now h
recorded_live ttl limit room c l now h k =
    ap (λ o. is_found (if_alive now o))
      (find-drop_expired h now l k.ordered k.represents.items_distinct)
    ∙ ap is_found (alive_twice now (find h l))

plan_live :
    (hash : ℕ → Text → ℕ) (scope ttl limit room : ℕ) (c : SafetyRequestCache) (l : List Item)
    (now : ℕ) (raws : List Text)
    → Holds ttl limit room c l
    → plan hash scope (drop_expired now l) now raws ≡ plan hash scope l now raws
plan_live hash scope ttl limit room c l now [] k = refl
plan_live hash scope ttl limit room c l now (raw ∷ raws) k =
    ap₂ ◌∷◌ (recorded_live ttl limit room c l now (hash scope raw) k)
      (plan_live hash scope ttl limit room c l now raws k)

still_live : (now : ℕ) (l : List Item) → drop_expired now (drop_expired now l) ≡ drop_expired now l
unfolding drop_expired
still_live now [] = refl
still_live now (x ∷ l) = ground (arith, still_live now l)

-- Every lookup purges the cache, and no lookup is made for no ciphertext.
abbrev pub inspected : List Text → ℕ → List Item → List Item
inspected [] now l = l
inspected (raw ∷ raws) now l = drop_expired now l

inspected_rest :
    (raws : List Text) (now : ℕ) (l : List Item)
    → inspected raws now (drop_expired now l) ≡ drop_expired now l
inspected_rest [] now l = refl
inspected_rest (raw ∷ raws) now l = still_live now l

-- The inspection of a request's ciphertexts appends their hashes to the candidates, and beside each
-- whether the cache holds a rejection of it that is not expired; of the session it changes nothing else,
-- and of the cache it takes the expired items alone.
pub inspect_all_lem :
    (hash : ℕ → Text → ℕ) (ttl limit room : ℕ) (raws : List Text) (c : SafetyRequestCache)
    (l : List Item) (s : Session)
    → Holds ttl limit room c l
    → (c' : SafetyRequestCache) × (inspect_all hash (some c) s raws
        ≡ some (
          some c',
          record s {
            candidates = s.candidates ++ map (hash s.scope) raws;
            matches = s.matches ++ map (λ raw. recorded l s.checked_at (hash s.scope raw)) raws;
          },
        ))
      × Holds ttl limit room c' (inspected raws s.checked_at l)
unfolding inspect_all inspect
inspect_all_lem hash ttl limit room [] c l s k = (
  c,
  ap₂ (λ (a : List ℕ) (b : List Bool). some (some c, record s { candidates = a; matches = b }))
      (sym (append-nil s.candidates)) (sym (append-nil s.matches)),
  k,
)
inspect_all_lem hash ttl limit room (raw ∷ raws) c l s k =
    let h = hash s.scope raw in
    let now = s.checked_at in
    let (c1, e1, k1) = contains_lem ttl limit room c l h now k in
    let s1 = record s {
      candidates = s.candidates ++ h ∷ [];
      matches = s.matches ++ recorded l now h ∷ [];
    } in
    let (c2, e2, k2) = inspect_all_lem hash ttl limit room raws c1 (drop_expired now l) s1 k1 in
    (
      c2,
      rw e1 (
          e2
          ∙ ap₂
              (λ (a : List ℕ) (b : List Bool).
                some (some c2, record s { candidates = a; matches = b }))
              (append_assoc s.candidates (h ∷ []) (map (hash s.scope) raws))
              (append_assoc s.matches (recorded l now h ∷ [])
                  (plan hash s.scope (drop_expired now l) now raws)
                ∙ ap (λ (p : List Bool). s.matches ++ recorded l now h ∷ p)
                    (plan_live hash s.scope ttl limit room c l now raws k))),
      subst (Holds ttl limit room c2) (inspected_rest raws now l) k2,
    )
