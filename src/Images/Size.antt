-- ===== src/Images/Size.antt =====
-- backend/internal/gateway/image_size_util.go: sizes written WIDTHxHEIGHT, their tiers, and the clamp
-- of the web-reverse path. `int` and `int64` have 64 bits and wrap.
use airgate_openai.Base.{
  ltb, leb, ◌==◌, if◌then◌else◌, ◌>>=◌, lt→ltb, Text, trim_space, to_lower, ℕ, zero, suc, ◌+◌, ◌-◌,
  ◌*◌, ◌/◌, ◌%◌, ◌≤◌, ◌<◌, ◌≡◌, ◌↔◌, Bool, true, false, ◌&&◌, Option, none, some, List, [], ◌∷◌,
  arith,
}
use native.Mathlib.Nat.{div-lt_iff_lt-mul}
use airgate_openai.Base.Int.{ℤ, pos, negsuc, pos_part, max_int}

abbrev pub two_63 : ℕ
two_63 = 9_223_372_036_854_775_808

abbrev pub two_64 : ℕ
two_64 = 18_446_744_073_709_551_616

-- The `int64` with the bits of the number.
unfoldable pub wrap64 : ℕ → ℤ
wrap64 n = let r = n % two_64 in if ltb r two_63 then pos r else negsuc (two_64 - 1 - r)

-- `z <= n`
abbrev pub at_most : ℤ → ℕ → Bool
at_most (pos m) n = leb m n
at_most (negsuc m) n = true

-- `n <= z`
abbrev pub at_least : ℤ → ℕ → Bool
at_least (pos m) n = leb n m
at_least (negsuc m) n = false

-- Go's division by a positive number, which truncates towards zero.
abbrev pub negated : ℕ → ℤ
negated zero = pos 0
negated (suc n) = negsuc n

abbrev pub div_trunc : ℤ → ℕ → ℤ
div_trunc (pos n) d = pos (n / d)
div_trunc (negsuc n) d = negated (suc n / d)

abbrev pub image_tier_1k_max_pixels : ℕ
image_tier_1k_max_pixels = 1536 * 1024

abbrev pub image_tier_2k_max_pixels : ℕ
image_tier_2k_max_pixels = 2048 * 2048

abbrev pub web_reverse_max_image_edge : ℕ
web_reverse_max_image_edge = 3840

-- `strings.Split(s, "x")`
unfoldable pub split_x : Text → List Text
split_x [] = [] ∷ []
split_x (c ∷ s) = elim (c == b'x') [
  | true ↦ [] ∷ split_x s
  | false ↦ elim (split_x s) [ [] ↦ (c ∷ []) ∷ [] | p ∷ ps ↦ (c ∷ p) ∷ ps ]
]

-- The digits of a decimal number.
unfoldable pub parse_digits : ℕ → Text → Option ℕ
parse_digits acc [] = some acc
parse_digits acc (c ∷ s) =
    let rest = parse_digits (acc * 10 + (c - b'0')) s in
    if leb b'0' c && leb c b'9' then rest else none

unfoldable pub parse_unsigned : Text → Option ℕ
unfolding parse_digits
parse_unsigned [] = none
parse_unsigned (c ∷ s) = parse_digits 0 (c ∷ s)

-- `strconv.Atoi`, as far as the result is positive: a number below zero, zero and an error are all
-- `none`.
unfoldable pub positive_int : Option ℕ → Option ℕ
positive_int none = none
positive_int (some n) = if ltb 0 n && leb n max_int then some n else none

unfoldable pub parse_positive : Text → Option ℕ
unfolding parse_unsigned positive_int
parse_positive [] = none
parse_positive (c ∷ s) =
    positive_int (if c == b'+' then parse_unsigned s else parse_unsigned (c ∷ s))

unfoldable pub parse_parts : List Text → Option (ℕ × ℕ)
unfolding parse_positive
parse_parts (w ∷ h ∷ []) = do
  width ← parse_positive (trim_space w)
  height ← parse_positive (trim_space h)
  some (width, height)
parse_parts _ = none

unfoldable pub parse_image_size : Text → Option (ℕ × ℕ)
unfolding split_x parse_parts
parse_image_size size = parse_parts (split_x (to_lower (trim_space size)))

pub data Tier : Type 0 where
  tier_1k tier_2k tier_4k : Tier

-- The `switch` of `imageTierPriceForSize` on the number of pixels. The prices are floats: 0.10, 0.20
-- and 0.40.
unfoldable pub tier_of_pixels : ℤ → Tier
tier_of_pixels total =
    if at_most total image_tier_1k_max_pixels
    then tier_1k
    else if at_most total image_tier_2k_max_pixels
    then tier_2k
    else tier_4k

unfoldable pub tier_of_size : ℕ × ℕ → Tier
unfolding tier_of_pixels wrap64
tier_of_size (width, height) = tier_of_pixels (wrap64 (width * height))

unfoldable pub image_tier_for_size : Text → Option Tier
image_tier_for_size size = parse_image_size size >>= λ d. some (tier_of_size d)

unfoldable pub scale_image_dimension : ℕ → ℕ → ℕ → ℤ
unfolding wrap64
scale_image_dimension value old_edge new_edge =
    div_trunc (wrap64 (value * new_edge + old_edge / 2)) old_edge

unfoldable pub clamp_image_size : ℕ → ℕ → ℕ → ℤ × ℤ
clamp_image_size width height max_edge =
    if leb width max_edge && leb height max_edge
    then (pos width, pos height)
    else if leb height width
    then (pos max_edge, scale_image_dimension height width max_edge)
    else (scale_image_dimension width height max_edge, pos max_edge)

positive_int-bound : (o : Option ℕ) {n : ℕ} → positive_int o ≡ some n → (0 < n) × (n ≤ max_int)
unfolding positive_int
positive_int-bound o e = ground arith

parse_positive-bound : (s : Text) {n : ℕ} → parse_positive s ≡ some n → (0 < n) × (n ≤ max_int)
unfolding parse_positive
parse_positive-bound [] e = absurd (cc)
parse_positive-bound (c ∷ s) e =
    positive_int-bound (if c == b'+' then parse_unsigned s else parse_unsigned (c ∷ s)) e

parse_parts-bound :
    (ps : List Text) {w h : ℕ}
    → parse_parts ps ≡ some (w, h)
    → (0 < w) × (w ≤ max_int) × (0 < h) × (h ≤ max_int)
unfolding parse_parts
parse_parts-bound (p ∷ q ∷ []) {w} {h} e =
    let a = parse_positive-bound (trim_space p) {n = w} (ground arith) in
    let b = parse_positive-bound (trim_space q) {n = h} (ground arith) in (a.0, a.1, b.0, b.1)
parse_parts-bound _ e = absurd (cc)

-- A size that parses has two positive `int`s.
pub parse_image_size-positive :
    (size : Text) {w h : ℕ}
    → parse_image_size size ≡ some (w, h)
    → (0 < w) × (w ≤ max_int) × (0 < h) × (h ≤ max_int)
unfolding parse_image_size
parse_image_size-positive size e = parse_parts-bound (split_x (to_lower (trim_space size))) e

-- Where the product of the sides is an `int`, the tier is by the number of pixels.
pub tier_of_size-pixels :
    (w h : ℕ)
    → w * h < two_63
    → ((tier_of_size (w, h) ≡ tier_1k) ↔ (w * h ≤ image_tier_1k_max_pixels))
      × ((tier_of_size (w, h) ≡ tier_4k) ↔ (image_tier_2k_max_pixels < w * h))
unfolding tier_of_size
tier_of_size-pixels w h b =
    ((λ e. ground arith, λ e. ground arith), (λ e. ground arith, λ e. ground arith))

-- A size whose number of pixels is a multiple of 2 ^ 64, however large, is of the lowest tier.
pub tier_of_size-wrapped : (w h k : ℕ) → w * h ≡ k * two_64 → tier_of_size (w, h) ≡ tier_1k
unfolding tier_of_size
tier_of_size-wrapped w h k e = let z : w * h % two_64 ≡ 0 = omega arith in rw z

-- A scaled side is the rounded quotient where nothing wraps.
pub scale_image_dimension-exact :
    (value old new : ℕ)
    → value * new + old / 2 < two_63
    → scale_image_dimension value old new ≡ pos ((value * new + old / 2) / old)
unfolding scale_image_dimension
scale_image_dimension-exact value old new b =
    let m : (value * new + old / 2) % two_64 ≡ value * new + old / 2 = omega arith in
    rw (m, lt→ltb _ _ b)

pub rounded-le : (value old new : ℕ) → 0 < old → value ≤ old → (value * new + old / 2) / old ≤ new
rounded-le value old new p h =
    let m : value * new ≤ old * new = grind arith in
    let q : (value * new + old / 2) / old < new + 1 =
      (div-lt_iff_lt-mul {k = old} {x = value * new + old / 2} {y = new + 1} p).1 (omega arith) in
    omega arith

-- A clamped size lies within the edge where nothing wraps.
pub clamp_image_size-edge :
    (w h edge : ℕ)
    → 0 < w
    → 0 < h
    → w * edge + h < two_63
    → h * edge + w < two_63
    → let (w', h') = clamp_image_size w h edge in (pos_part w' ≤ edge) × (pos_part h' ≤ edge)
unfolding clamp_image_size
clamp_image_size-edge w h edge pw ph bw bh = ground (
  arith,
  scale_image_dimension-exact h w edge,
  scale_image_dimension-exact w h edge,
  rounded-le h w edge,
  rounded-le w h edge,
)
