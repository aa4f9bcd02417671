-- ===== src/Images/Fit.antt =====
-- The search of `scaleImageSizeToConstraints` ends, and what it finds keeps to the limits.
use airgate_openai.Base.{
  ◌⊎◌, ltb, leb, ◌==◌, if◌then◌else◌, Bool-cases, Option-cases, All, any, All-append, ℕ, zero, suc,
  ◌+◌, ◌-◌, ◌*◌, ◌/◌, ◌%◌, ◌≤◌, ◌<◌, ◌≡◌, refl, sym, ◌∙◌, inl, inr, Bool, true, false, ◌||◌, Option,
  none, some, List, [], ◌∷◌, arith, dec_le,
}
use native.Mathlib.Nat.{mul-mod_left, mod_self, mod-eq-sub-mod}
use airgate_openai.Base.Int.{ℤ, pos, negsuc, pos_part}
use airgate_openai.Images.Size.{scale_image_dimension, two_63, wrap64}
use airgate_openai.Images.Scale.{
  round_to_multiple, floor_to_multiple, keep_new, multiple_candidates, Limits, within_constraints,
  first_within, Search, search_loop, with_multiple, target_long, scale_with, scale_to_constraints,
}

-- Sides below it have triples that do not wrap.
abbrev pub most : ℕ
most = 2_000_000_000_000_000_000

-- What a size that is found satisfies.
pub record Fits (k : Limits) (w h w' h' : ℕ) : Type 0 where
  pub positive : (0 < w') × (0 < h')
  pub within : (w' ≤ w) × (h' ≤ h)
  pub long_edge : (k.max_long_edge ≡ 0) ⊎ ((w' ≤ k.max_long_edge) × (h' ≤ k.max_long_edge))
  pub pixels : (k.max_pixels ≡ 0) ⊎ (two_63 ≤ w' * h') ⊎ (w' * h' ≤ k.max_pixels)
  pub shape : (most ≤ w') ⊎ (most ≤ h') ⊎ ((w' ≤ h' * 3) × (h' ≤ w' * 3))

within-Fits :
    (k : Limits) (w h w' h' : ℕ) → within_constraints k w h w' h' ≡ true → Fits k w h w' h'
unfolding within_constraints
within-Fits k w h w' h' e = record {
  positive = ground arith;
  within = ground arith;
  long_edge = ground arith;
  pixels = ground arith;
  shape = ground arith;
}

abbrev IsMultiple : ℕ → ℕ → Type 0
IsMultiple m n = n % m ≡ 0

-- Nothing found, or a size within the limits whose sides are multiples.
pub FitsIfFound : Limits → ℕ → ℕ → Option (ℕ × ℕ) → Type 0
FitsIfFound k w h none = Unit
FitsIfFound k w h (some (w', h')) =
    Fits k w h w' h' × IsMultiple k.multiple w' × IsMultiple k.multiple h'

first_within-Fits :
    (k : Limits) (b : Bool) (w h long : ℕ) (shorts : List ℕ)
    → IsMultiple k.multiple long
    → All (IsMultiple k.multiple) shorts
    → FitsIfFound k w h (first_within k b w h long shorts)
unfolding first_within FitsIfFound
first_within-Fits k b w h long [] m a = tt
first_within-Fits k true w h long (s ∷ ss) m a =
    elim (Bool-cases (within_constraints k w h long s)) [
      | inl t ↦ rw t (within-Fits k w h long s t, m, a.0)
      | inr t ↦ rw t (first_within-Fits k true w h long ss m a.1)
    ]
first_within-Fits k false w h long (s ∷ ss) m a =
    elim (Bool-cases (within_constraints k w h s long)) [
      | inl t ↦ rw t (within-Fits k w h s long t, a.0, m)
      | inr t ↦ rw t (first_within-Fits k false w h long ss m a.1)
    ]

keep_new-All :
    (m c : ℕ) (seen : List ℕ)
    → IsMultiple m c
    → All (IsMultiple m) seen
    → All (IsMultiple m) (keep_new c seen)
keep_new-All m c seen p a = elim (Bool-cases (c == 0 || any (λ d. c == d) seen)) [
  | inl t ↦ rw t a
  | inr t ↦ rw t (All-append (IsMultiple m) seen (c ∷ []) a (p, tt))
]

round-IsMultiple : (v m : ℕ) → IsMultiple m (round_to_multiple v m)
unfolding round_to_multiple
round-IsMultiple v m = elim (Bool-cases (ltb (pos_part (wrap64 (v + m / 2)) / m * m) m)) [
  | inl t ↦ rw t (mod_self m)
  | inr t ↦ rw t (mul-mod_left _ _)
]

candidates-All : (v : ℤ) (m : ℕ) → 0 < m → All (IsMultiple m) (multiple_candidates v m)
unfolding multiple_candidates
candidates-All (negsuc n) m p = tt
candidates-All (pos zero) m p = tt
candidates-All (pos (suc n)) m p =
    keep_new-All m _ _ (mul-mod_left _ _)
      (keep_new-All m _ _ (mul-mod_left _ _) (keep_new-All m _ [] (round-IsMultiple (suc n) m) tt))

abbrev candidates : Limits → Bool → ℕ → ℕ → ℕ → List ℕ
candidates k b w h candidate =
    multiple_candidates (scale_image_dimension (if b then h else w) (if b then w else h) candidate)
      k.multiple

search_loop_below :
    (fuel : ℕ) (k : Limits) (b : Bool) (w h candidate : ℕ)
    → candidate < k.multiple
    → search_loop (suc fuel) k b w h candidate ≡ some none
unfolding search_loop
search_loop_below fuel k b w h candidate l = ground arith

search_loop_found :
    (fuel : ℕ) (k : Limits) (b : Bool) (w h candidate : ℕ) {d : ℕ × ℕ}
    → k.multiple ≤ candidate
    → first_within k b w h candidate (candidates k b w h candidate) ≡ some d
    → search_loop (suc fuel) k b w h candidate ≡ some (some d)
unfolding search_loop
search_loop_found fuel k b w h candidate l e = ground arith

search_loop_next :
    (fuel : ℕ) (k : Limits) (b : Bool) (w h candidate : ℕ)
    → k.multiple ≤ candidate
    → first_within k b w h candidate (candidates k b w h candidate) ≡ none
    → search_loop (suc fuel) k b w h candidate ≡ search_loop fuel k b w h (candidate - k.multiple)
unfolding search_loop
search_loop_next fuel k b w h candidate l e = ground arith

pub Ends : Limits → ℕ → ℕ → Search → Type 0
Ends k w h s = (r : Option (ℕ × ℕ)) × (s ≡ some r) × FitsIfFound k w h r

-- Enough fuel: the search ends.
pub search_loop-Ends :
    (fuel : ℕ) (k : Limits) (b : Bool) (w h candidate : ℕ)
    → 0 < k.multiple
    → candidate < fuel
    → IsMultiple k.multiple candidate
    → Ends k w h (search_loop fuel k b w h candidate)
unfolding Ends FitsIfFound
search_loop-Ends zero k b w h candidate p f m = absurd (omega arith)
search_loop-Ends (suc fuel) k b w h candidate p f m = elim (dec_le k.multiple candidate) [
  | no n ↦ (none, search_loop_below fuel k b w h candidate (omega arith), tt)
  | yes l ↦ elim (Option-cases (first_within k b w h candidate (candidates k b w h candidate))) [
    | inl e ↦ rw (search_loop_next fuel k b w h candidate l e) (
        search_loop-Ends fuel k b w h (candidate - k.multiple) p (omega arith)
          (sym (mod-eq-sub-mod l) ∙ m))
    | inr e ↦ (
      some e.0,
      search_loop_found fuel k b w h candidate l e.1,
      rw e.1 at (
          first_within-Fits k b w h candidate (candidates k b w h candidate) m
            (candidates-All _ k.multiple p)),
    )
  ]
]

module _ (pixel_limited_long : ℕ → ℕ → ℕ → ℕ) where
  target_long-IsMultiple :
      (k : Limits) (long short : ℕ)
      → IsMultiple k.multiple (target_long pixel_limited_long k long short)
  unfolding target_long floor_to_multiple
  target_long-IsMultiple k long short = mul-mod_left _ k.multiple

  scale_with-Ends :
      (k : Limits) (w h : ℕ) → 0 < k.multiple → Ends k w h (scale_with pixel_limited_long k w h)
  unfolding scale_with Ends FitsIfFound
  scale_with-Ends k w h p =
      elim (Bool-cases (
        ltb (target_long pixel_limited_long k (if leb h w then w else h) (if leb h w then h else w))
          k.multiple)) [
            | inl t ↦ rw t (none, refl, tt)
            | inr t ↦ rw t (
                search_loop-Ends _ k (leb h w) w h _ p (omega arith) (target_long-IsMultiple k _ _))
          ]

  with_multiple_positive : (k : Limits) → 0 < (with_multiple k).multiple
  with_multiple_positive k = ground arith

  -- For every size and every limit the search of the scaling ends with its fuel left; and a size that it finds is not empty, is within the size given and within
  -- the limits, has sides that are multiples of the multiple, and is at most three times as long as
  -- it is short, where the products stay within the integers of the machine.
  pub scale_to_constraints-Ends :
      (k : Limits) (w h : ℕ)
      → Ends (with_multiple k) w h (scale_to_constraints pixel_limited_long k w h)
  unfolding scale_to_constraints Ends FitsIfFound
  scale_to_constraints-Ends k w h = elim (Bool-cases (w == 0 || h == 0)) [
    | inl t ↦ rw t (none, refl, tt)
    | inr t ↦ rw t (scale_with-Ends (with_multiple k) w h (with_multiple_positive k))
  ]
