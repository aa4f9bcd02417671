-- ===== src/Sessions/Longest.antt =====
-- session_state.go: the digest cache finds the longest part of a chain that it holds, and stays small.
use airgate_openai.Base.{
  ◌==◌, if◌then◌else◌, length, take, length-append, Text, Text-discrete, get, get-delete, ℕ, zero,
  suc, ◌+◌, ◌≤◌, ◌<◌, ◌≡◌, refl, sym, ap, ◌∙◌, ◌≢◌, ◌⊎◌, inl, inr, Option, none, some, [], ◌∷◌,
  ◌++◌, arith, dec_lt, ℕ_discrete,
}
use mathlib.Core.Path.{subst}
use airgate_openai.Sessions.Digest.{
  DigestEntry, Nodes, DigestCache, get_node, is_stale, load_digest, remove_back, trim_loop,
  before_last,
}

-- The entry of a key, where it is there and fresh.
abbrev pub fresh : ℕ → ℕ → Option DigestEntry → Option DigestEntry
fresh ttl now none = none
fresh ttl now (some e) = if is_stale ttl now e then none else some e

unfoldable pub live : Text → ℕ → DigestCache → Option DigestEntry
live key now c = fresh c.ttl now (get_node key c.nodes)

pub load_digest_lem :
    (key : Text) (now : ℕ) (c : DigestCache) → (load_digest key now c).1 ≡ live key now c
unfolding load_digest live
load_digest_lem key now c = ground arith

pub load_digest-keeps :
    (key k : Text) (now : ℕ) (c : DigestCache) → live k now (load_digest key now c).0 ≡ live k now c
unfolding load_digest live get
load_digest-keeps key k now c = ground (arith, get-delete Text-discrete k key c.nodes)

-- A part of a chain: the chain, or what stands before one of its dashes.
unfoldable pub IsPart : Text → Text → Type 0
IsPart p chain = (p ≡ chain) ⊎ ((rest : Text) × (chain ≡ p ++ 45 ∷ rest))

-- What `before_last` says of the parts.
unfoldable pub Before : Text → Option Text → Type 0
Before chain none = (p : Text) → IsPart p chain → p ≡ chain
Before chain (some q) =
    (length q < length chain)
    × IsPart q chain
    × ((p : Text) → IsPart p chain → (p ≡ chain) ⊎ IsPart p q)

-- How a part of a text that has a first character begins.
View : ℕ → Text → Text → Type 0
View c cs p =
    (p ≡ c ∷ cs)
    ⊎ (((p ≡ []) × (c ≡ 45)) ⊎ ((q : Text) × (p ≡ c ∷ q) × (rest : Text) × (cs ≡ q ++ 45 ∷ rest)))

view : (c : ℕ) (cs p : Text) → IsPart p (c ∷ cs) → View c cs p
unfolding IsPart View
view c cs p (inl e) = inl e
view c cs [] (inr (rest, e)) = inr (inl (refl, cc))
view c cs (x ∷ q) (inr (rest, e)) = inr (inr (q, cc, rest, cc))

lengths-differ : {k m : ℕ} (n : ℕ) → k ≡ m + suc n → m ≢ k
lengths-differ n e f = omega arith

Before-empty : Before [] none
unfolding Before IsPart
Before-empty p (inl e) = e
Before-empty [] (inr (rest, e)) = refl
Before-empty (x ∷ p) (inr (rest, e)) = absurd cc

abbrev dash : ℕ → Option Text
dash c = if c == 45 then some [] else none

dash_if : (c : ℕ) → c ≡ 45 → dash c ≡ some []
dash_if c e = ground arith

dash_unless : (c : ℕ) → c ≢ 45 → dash c ≡ none
dash_unless c n = ground arith

not_whole : (cs q rest : Text) → cs ≡ q ++ 45 ∷ rest → q ≢ cs
not_whole cs q rest e f = lengths-differ _ (ap length e ∙ length-append q (45 ∷ rest)) (ap length f)

IsPart-cons : (c : ℕ) (p q : Text) → IsPart p q → IsPart (c ∷ p) (c ∷ q)
unfolding IsPart
IsPart-cons c p q (inl e) = inl (ap (λ t. c ∷ t) e)
IsPart-cons c p q (inr (rest, e)) = inr (rest, ap (λ t. c ∷ t) e)

Before-none : (c : ℕ) (cs : Text) → c ≢ 45 → Before cs none → Before (c ∷ cs) none
unfolding Before View IsPart
Before-none c cs n b p i = elim (view c cs p i) [
  | inl e ↦ e
  | inr (inl (e, f)) ↦ absurd (n f)
  | inr (inr (q, e, rest, f)) ↦ absurd (not_whole cs q rest f (b q (inr (rest, f))))
]

Before-dash : (c : ℕ) (cs : Text) → c ≡ 45 → Before cs none → Before (c ∷ cs) (some [])
unfolding Before View IsPart
Before-dash c cs d b = (
  omega arith,
  inr (cs, ap (λ x. x ∷ cs) d),
  λ p i. elim (view c cs p i) [
    | inl e ↦ inl e
    | inr (inl (e, f)) ↦ inr (inl e)
    | inr (inr (q, e, rest, f)) ↦ absurd (not_whole cs q rest f (b q (inr (rest, f))))
  ],
)

Before-later : (c : ℕ) (cs q : Text) → Before cs (some q) → Before (c ∷ cs) (some (c ∷ q))
unfolding Before View IsPart
Before-later c cs q (l, i, b) = (
  omega arith,
  IsPart-cons c q cs i,
  λ p j. elim (view c cs p j) [
    | inl e ↦ inl e
    | inr (inl (e, f)) ↦ inr (inr (q, ap (λ x. x ∷ q) f ∙ ap (λ t. t ++ 45 ∷ q) (sym e)))
    | inr (inr (p', e, rest, f)) ↦ elim (b p' (inr (rest, f))) [
      | inl g ↦ absurd (not_whole cs p' rest f g)
      | inr g ↦ inr (subst (λ t. IsPart t (c ∷ q)) (sym e) (IsPart-cons c p' q g))
    ]
  ],
)

Before-cons :
    (c : ℕ) (cs : Text) (o : Option Text)
    → Before cs o
    → Before (c ∷ cs) (elim o [ some p ↦ some (c ∷ p) | none ↦ if c == 45 then some [] else none ])
Before-cons c cs (some q) b = Before-later c cs q b
Before-cons c cs none b = elim (ℕ_discrete c 45) [
  | yes e ↦ subst (Before (c ∷ cs)) (sym (dash_if c e)) (Before-dash c cs e b)
  | no n ↦ subst (Before (c ∷ cs)) (sym (dash_unless c n)) (Before-none c cs n b)
]

pub before_last_lem : (chain : Text) → Before chain (before_last chain)
unfolding before_last
before_last_lem [] = Before-empty
before_last_lem (c ∷ cs) = Before-cons c cs (before_last cs) (before_last_lem cs)

remove_back-length :
    (n : Text × DigestEntry) (ns : Nodes) → length (remove_back (n ∷ ns)) ≡ length ns
unfolding remove_back
remove_back-length n [] = refl
remove_back-length n (m ∷ ns) = ap suc (remove_back-length m ns)

remove_back-take :
    (k : ℕ) (n : Text × DigestEntry) (ns : Nodes)
    → k ≤ length ns
    → take k (remove_back (n ∷ ns)) ≡ take k (n ∷ ns)
unfolding remove_back
remove_back-take zero n ns l = refl
remove_back-take (suc k) n [] l = absurd (omega arith)
remove_back-take (suc k) n (m ∷ ns) l = ap (λ xs. n ∷ xs) (remove_back-take k m ns (omega arith))

pub take_all : (k : ℕ) (ns : Nodes) → length ns ≤ k → take k ns ≡ ns
take_all zero [] l = refl
take_all zero (n ∷ ns) l = absurd (omega arith)
take_all (suc k) [] l = refl
take_all (suc k) (n ∷ ns) l = ap (λ xs. n ∷ xs) (take_all k ns (omega arith))

trim_loop_fits :
    (fuel max_size : ℕ) (ns : Nodes)
    → length ns ≤ max_size
    → trim_loop (suc fuel) max_size ns ≡ take max_size ns
unfolding trim_loop
trim_loop_fits fuel max_size ns l = ground (arith, take_all max_size ns)

trim_loop_over :
    (fuel max_size : ℕ) (ns : Nodes)
    → 0 < max_size
    → max_size < length ns
    → trim_loop (suc fuel) max_size ns ≡ trim_loop fuel max_size (remove_back ns)
unfolding trim_loop
trim_loop_over fuel max_size ns p l = ground arith

back_le :
    (fuel : ℕ) (n : Text × DigestEntry) (ns : Nodes)
    → length (n ∷ ns) ≤ suc fuel
    → length (remove_back (n ∷ ns)) ≤ fuel
back_le fuel n ns l = subst (λ k. k ≤ fuel) (sym (remove_back-length n ns)) (omega arith)

-- The loop that trims ends, and keeps the front of the list as far as it may.
pub trim_loop_lem :
    (fuel max_size : ℕ) (ns : Nodes)
    → length ns ≤ fuel
    → 0 < max_size
    → trim_loop fuel max_size ns ≡ take max_size ns
unfolding trim_loop
trim_loop_lem zero max_size [] l p = sym (take_all max_size [] (omega arith))
trim_loop_lem zero max_size (n ∷ ns) l p = absurd (omega arith)
trim_loop_lem (suc fuel) max_size [] l p = trim_loop_fits fuel max_size [] (omega arith)
trim_loop_lem (suc fuel) max_size (n ∷ ns) l p = elim (dec_lt max_size (length (n ∷ ns))) [
  | yes g ↦
      trim_loop_over fuel max_size (n ∷ ns) p g
      ∙ trim_loop_lem fuel max_size (remove_back (n ∷ ns)) (back_le fuel n ns l) p
      ∙ remove_back-take max_size n ns (omega arith)
  | no g ↦ trim_loop_fits fuel max_size (n ∷ ns) (omega arith)
]
