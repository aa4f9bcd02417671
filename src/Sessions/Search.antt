-- ===== src/Sessions/Search.antt =====
-- session_state.go: what `findAnthropicDigestSession` finds, and that the cache of digests is bounded.
use airgate_openai.Base.{
  ◌==◌, Option-cases, length, take, length-append, Text, Text-discrete, is_empty, Distinct,
  delete_absent, length-delete, ℕ, zero, suc, ◌+◌, ◌≤◌, ◌<◌, ◌≡◌, refl, sym, ap, ◌∙◌, inl, inr,
  false, ◌||◌, Option, none, some, [], ◌∷◌, ◌++◌, arith,
}
use mathlib.Core.Path.{subst}
use airgate_openai.Sessions.Digest.{
  DigestEntry, Nodes, DigestCache, get_node, remove_node, load_digest, trim_loop, store_digest,
  before_last, Found, find_loop, is_anonymous, find_digest_session,
}
use airgate_openai.Sessions.Longest.{
  live, load_digest-keeps, IsPart, Before, before_last_lem, trim_loop_lem, take_all,
}

append_assoc : (a b c : Text) → (a ++ b) ++ c ≡ a ++ (b ++ c)
append_assoc [] b c = refl
append_assoc (x ∷ a) b c = ap (λ t. x ∷ t) (append_assoc a b c)

IsPart-trans : (p q chain : Text) → IsPart p q → IsPart q chain → IsPart p chain
unfolding IsPart
IsPart-trans p q chain (inl e) (inl f) = inl (e ∙ f)
IsPart-trans p q chain (inr (r, e)) (inl f) = inr (r, sym f ∙ e)
IsPart-trans p q chain (inl e) (inr (r, f)) = inr (r, f ∙ ap (λ t. t ++ 45 ∷ r) (sym e))
IsPart-trans p q chain (inr (r, e)) (inr (s, f)) =
    inr (r ++ 45 ∷ s, f ∙ ap (λ t. t ++ 45 ∷ s) e ∙ append_assoc p (45 ∷ r) (45 ∷ s))

le_of : {m n : ℕ} → m ≡ n → m ≤ n
le_of e = omega arith

le_of_sum : {m n : ℕ} (k : ℕ) → n ≡ m + k → m ≤ n
le_of_sum k e = omega arith

part-length : (p chain : Text) → IsPart p chain → length p ≤ length chain
unfolding IsPart
part-length p chain (inl e) = le_of (ap length e)
part-length p chain (inr (r, e)) = le_of_sum _ (ap length e ∙ length-append p (45 ∷ r))

not_longer :
    (p chain : Text)
    → IsPart p chain
    → length chain < length p
    → {o : Option DigestEntry} → o ≡ none
not_longer p chain i l = let h = part-length p chain i in absurd (omega arith)

-- Nothing was found: no part of the chain is live. Or a part is live, and no longer part is.
pub Longest : Text → Text → ℕ → DigestCache → Found → Type 0
Longest ns chain now c none = (p : Text) → IsPart p chain → live (ns ++ p) now c ≡ none
Longest ns chain now c (some (id, m)) =
    IsPart m chain
    × ((e : DigestEntry) × (live (ns ++ m) now c ≡ some e) × (e.session_id ≡ id))
    × ((p : Text) → IsPart p chain → length m < length p → live (ns ++ p) now c ≡ none)

here :
    (ns chain : Text) (now : ℕ) (c : DigestCache) (e : DigestEntry)
    → live (ns ++ chain) now c ≡ some e
    → Longest ns chain now c (some (e.session_id, chain))
unfolding Longest IsPart
here ns chain now c e f = (inl refl, (e, f, refl), λ p i l. not_longer p chain i l)

shorter :
    (ns chain q : Text) (now : ℕ) (c d : DigestCache)
    → ((k : Text) → live k now d ≡ live k now c)
    → live (ns ++ chain) now c ≡ none
    → Before chain (some q)
    → (f : Found) → Longest ns q now d f
    → Longest ns chain now c f
unfolding Longest Before
shorter ns chain q now c d k n (l, i, b) none s = λ p j. elim (b p j) [
  | inl e ↦ ap (λ t. live (ns ++ t) now c) e ∙ n
  | inr g ↦ sym (k (ns ++ p)) ∙ s p g
]
shorter ns chain q now c d k n (l, i, b) (some (id, m)) (s, (e, u, v), w) = (
  IsPart-trans m q chain s i,
  (e, sym (k (ns ++ m)) ∙ u, v),
  λ p j g. elim (b p j) [
    | inl e ↦ ap (λ t. live (ns ++ t) now c) e ∙ n
    | inr h ↦ sym (k (ns ++ p)) ∙ w p h g
  ],
)

find_loop_found :
    (fuel : ℕ) (ns chain : Text) (now : ℕ) (c : DigestCache) (e : DigestEntry)
    → live (ns ++ chain) now c ≡ some e
    → (find_loop (suc fuel) ns chain now c).1 ≡ some (e.session_id, chain)
unfolding find_loop live
find_loop_found fuel ns chain now c e h = ground arith

find_loop_ends :
    (fuel : ℕ) (ns chain : Text) (now : ℕ) (c : DigestCache)
    → live (ns ++ chain) now c ≡ none
    → before_last chain ≡ none
    → (find_loop (suc fuel) ns chain now c).1 ≡ none
unfolding find_loop live
find_loop_ends fuel ns chain now c h b = ground arith

find_loop_next :
    (fuel : ℕ) (ns chain q : Text) (now : ℕ) (c : DigestCache)
    → live (ns ++ chain) now c ≡ none
    → before_last chain ≡ some q
    → find_loop (suc fuel) ns chain now c
      ≡ find_loop fuel ns q now (load_digest (ns ++ chain) now c).0
unfolding find_loop live
find_loop_next fuel ns chain q now c h b = ground arith

unmatched :
    (ns chain : Text) (now : ℕ) (c : DigestCache)
    → live (ns ++ chain) now c ≡ none
    → Before chain none
    → Longest ns chain now c none
unfolding Longest Before
unmatched ns chain now c n b p i = ap (λ t. live (ns ++ t) now c) (b p i) ∙ n

Before-of : (chain : Text) (o : Option Text) → before_last chain ≡ o → Before chain o
Before-of chain o e = subst (Before chain) e (before_last_lem chain)

below : {n : ℕ} (chain q : Text) → length chain < suc n → Before chain (some q) → length q < n
unfolding Before
below chain q l (m, i, b) = omega arith

find_loop-Longest :
    (fuel : ℕ) (ns chain : Text) (now : ℕ) (c : DigestCache)
    → length chain < fuel
    → Longest ns chain now c (find_loop fuel ns chain now c).1
unfolding find_loop
find_loop-Longest zero ns chain now c l = absurd (omega arith)
find_loop-Longest (suc fuel) ns chain now c l = elim (Option-cases (live (ns ++ chain) now c)) [
  | inr (e, h) ↦
      subst (Longest ns chain now c) (sym (find_loop_found fuel ns chain now c e h))
        (here ns chain now c e h)
  | inl h ↦ elim (Option-cases (before_last chain)) [
    | inl b ↦
        subst (Longest ns chain now c) (sym (find_loop_ends fuel ns chain now c h b))
          (unmatched ns chain now c h (Before-of chain none b))
    | inr (q, b) ↦
        subst (Longest ns chain now c)
          (sym (ap (λ r. r.1) (find_loop_next fuel ns chain q now c h b)))
          (shorter ns chain q now c (load_digest (ns ++ chain) now c).0
            (λ k. load_digest-keeps (ns ++ chain) k now c) h (Before-of chain (some q) b) _
            (find_loop-Longest fuel ns q now (load_digest (ns ++ chain) now c).0
              (below chain q l (Before-of chain (some q) b))))
  ]
]

module _ (digest_namespace : ℕ → Option Text → Text) where
  -- For an account and a chain that are there, outside an anonymous scope, the search ends and finds
  -- the longest part of the chain, up to the end or to a dash, whose entry the cache holds and is not
  -- too old, with that entry's session; and it finds nothing only where there is no such part.
  pub find_digest_session-Longest :
      (account_id : ℕ) (chain : Text) (scope : Option Text) (now : ℕ) (c : DigestCache)
      → (is_anonymous scope || account_id == 0 || is_empty chain) ≡ false
      → Longest
          (digest_namespace account_id scope)
          chain
          now
          c
          (find_digest_session digest_namespace account_id chain scope now c).1
  unfolding find_digest_session
  find_digest_session-Longest account_id chain scope now c e = rw e (
      find_loop-Longest (length chain + 1) (digest_namespace account_id scope) chain now c
        (omega arith))

store_digest_new :
    (key : Text) (e : DigestEntry) (c : DigestCache)
    → get_node key c.nodes ≡ none
    → (store_digest key e c).nodes ≡ trim_loop (length c.nodes + 1) c.max_size ((key, e) ∷ c.nodes)
unfolding store_digest
store_digest_new key e c n = ground arith

store_digest_old :
    (key : Text) (e o : DigestEntry) (c : DigestCache)
    → get_node key c.nodes ≡ some o
    → (store_digest key e c).nodes ≡ (key, e) ∷ remove_node key c.nodes
unfolding store_digest
store_digest_old key e o c n = ground arith

shrunk :
    (k : ℕ) (key : Text) (e o : DigestEntry) (ns : Nodes)
    → Distinct Text-discrete ns
    → get_node key ns ≡ some o
    → length ns ≤ k
    → length ((key, e) ∷ remove_node key ns) ≤ k
shrunk k key e o ns d n l = let h = length-delete Text-discrete key o ns d n in omega arith

-- In a cache within a positive size, whose keys are distinct, storing an entry puts it in front of
-- the others, the key's own entry left out, and keeps of these as many as the size lets from the
-- front: the oldest go.
pub store_digest_lem :
    (key : Text) (e : DigestEntry) (c : DigestCache)
    → Distinct Text-discrete c.nodes
    → 0 < c.max_size
    → length c.nodes ≤ c.max_size
    → (store_digest key e c).nodes ≡ take c.max_size ((key, e) ∷ remove_node key c.nodes)
store_digest_lem key e c d p l = elim (Option-cases (get_node key c.nodes)) [
  | inl n ↦
      store_digest_new key e c n
      ∙ trim_loop_lem (length c.nodes + 1) c.max_size ((key, e) ∷ c.nodes) (omega arith) p
      ∙ ap (λ t. take c.max_size ((key, e) ∷ t)) (sym (delete_absent Text-discrete key c.nodes n))
  | inr (o, n) ↦
      store_digest_old key e o c n
      ∙ sym (
          take_all c.max_size ((key, e) ∷ remove_node key c.nodes)
            (shrunk c.max_size key e o c.nodes d n l))
]
