-- ===== src/Images/Tokens.antt =====
-- backend/internal/gateway/image_token_calculator.go: the tokens of an image, from its sides and its
-- quality. An `int64` is its bit pattern, a number below 2 ^ 64, and its operations wrap.
use airgate_openai.Base.{
  ltb, ◌==◌, if◌then◌else◌, ◌>>=◌, lt→ltb, Text, codes, trim_space, to_lower, is_one_of, ℕ, ◌+◌,
  ◌-◌, ◌*◌, ◌/◌, ◌%◌, ◌≤◌, ◌<◌, min, max, ◌≡◌, ◌||◌, Option, none, some, [], ◌∷◌, arith,
}
use native.Mathlib.Nat.{div-lt_iff_lt-mul, div-add-mod, mod-lt, mul_comm, mul-le-mul}
use airgate_openai.Images.Size.{two_63, two_64, parse_image_size}

abbrev pub formula_bias : ℕ
formula_bias = 2_000_000

abbrev pub formula_scale : ℕ
formula_scale = 4_000_000

unfoldable pub quality_base : Text → Option ℕ
quality_base quality =
    let q = to_lower (trim_space quality) in
    if is_one_of q (codes "low" ∷ [])
    then some 16
    else if is_one_of q (codes "medium" ∷ [])
    then some 48
    else if is_one_of q (codes "high" ∷ [])
    then some 96
    else none

abbrev pub mul64 : ℕ → ℕ → ℕ
mul64 a b = a * b % two_64

abbrev pub add64 : ℕ → ℕ → ℕ
add64 a b = (a + b) % two_64

abbrev pub sub64 : ℕ → ℕ → ℕ
sub64 a b = (a + two_64 - b) % two_64

-- A pattern of 2 ^ 63 or more is below zero. The quotient is truncated towards zero.
abbrev pub magnitude : ℕ → ℕ
magnitude n = if ltb n two_63 then n else two_64 - n

unfoldable pub div64 : ℕ → ℕ → ℕ
div64 a b =
    let q = magnitude a / magnitude b in
    if ltb a two_63
    then (if ltb b two_63 then q else (two_64 - q) % two_64)
    else if ltb b two_63
    then (two_64 - q) % two_64
    else q % two_64

unfoldable pub round_positive_ratio : ℕ → ℕ → ℕ
unfolding div64
round_positive_ratio numerator denominator =
    div64 (add64 (mul64 numerator 2) denominator) (mul64 denominator 2)

unfoldable pub ceil_positive_ratio : ℕ → ℕ → ℕ
unfolding div64
ceil_positive_ratio numerator denominator =
    div64 (sub64 (add64 numerator denominator) 1) denominator

unfoldable pub tokens_of : ℕ → ℕ → ℕ → ℕ
tokens_of base width height =
    let long = if ltb width height then height else width in
    let short = if ltb width height then width else height in
    let patches = mul64 base (round_positive_ratio (mul64 base short) long) in
    ceil_positive_ratio (mul64 patches (add64 formula_bias (mul64 width height))) formula_scale

-- `none` is an error: a side that is not positive, or a quality that is not known.
unfoldable pub calculate_tokens : ℕ → ℕ → Text → Option ℕ
calculate_tokens width height quality =
    if width == 0 || height == 0
    then none
    else quality_base quality >>= λ base. some (tokens_of base width height)

unfoldable pub calculate : Text → Text → Option ℕ
calculate size quality = parse_image_size size >>= λ d. calculate_tokens d.0 d.1 quality

-- The formula over the natural numbers.
unfoldable pub rounded : ℕ → ℕ → ℕ
rounded n d = (n * 2 + d) / (d * 2)

unfoldable pub ceiling : ℕ → ℕ → ℕ
ceiling n d = (n + d - 1) / d

unfoldable pub patches : ℕ → ℕ → ℕ → ℕ
patches base short long = base * rounded (base * short) long

unfoldable pub exact_tokens : ℕ → ℕ → ℕ → ℕ
exact_tokens base width height =
    ceiling (patches base (min width height) (max width height) * (formula_bias + width * height))
      formula_scale

div64-exact : (a b : ℕ) → a < two_63 → b < two_63 → div64 a b ≡ a / b
unfolding div64
div64-exact a b p q = rw (lt→ltb a two_63 p, lt→ltb b two_63 q)

round-exact :
    (n d : ℕ) → n * 2 + d < two_63 → d * 2 < two_63 → round_positive_ratio n d ≡ rounded n d
unfolding round_positive_ratio rounded
round-exact n d p q =
    let a : add64 (mul64 n 2) d ≡ n * 2 + d = omega arith in
    let b : mul64 d 2 ≡ d * 2 = omega arith in rw (a, b) (div64-exact (n * 2 + d) (d * 2) p q)

ceil-exact : (n d : ℕ) → 0 < d → n + d < two_63 → ceil_positive_ratio n d ≡ ceiling n d
unfolding ceil_positive_ratio ceiling
ceil-exact n d z p =
    let a : sub64 (add64 n d) 1 ≡ n + d - 1 = omega arith in
    rw a (div64-exact (n + d - 1) d (omega arith) (omega arith))

-- No more patches along the short edge than along the long one.
rounded-le : (base short long : ℕ) → 0 < long → short ≤ long → rounded (base * short) long ≤ base
unfolding rounded
rounded-le base short long p h =
    let m : base * short ≤ base * long = grind arith in
    let q : (base * short * 2 + long) / (long * 2) < base + 1 =
      (div-lt_iff_lt-mul {k = long * 2} {x = base * short * 2 + long} {y = base + 1}
          (omega arith)).1
        (omega arith) in
    omega arith

pub ceiling-bounds : (n d : ℕ) → 0 < d → (n ≤ ceiling n d * d) × (ceiling n d * d < n + d)
unfolding ceiling
ceiling-bounds n d p =
    let e = div-add-mod (n + d - 1) d in
    let l = mod-lt (n + d - 1) {m = d} p in (omega (arith, mul_comm), omega (arith, mul_comm))

-- To turn an image does not change its tokens.
pub exact_tokens_comm :
    (base width height : ℕ) → exact_tokens base width height ≡ exact_tokens base height width
unfolding exact_tokens
exact_tokens_comm base width height =
    let a : min height width ≡ min width height = omega arith in
    let b : max height width ≡ max width height = omega arith in rw (a, b, mul_comm height width)

-- For sides of up to 2 ^ 24 pixels and a base of up to 96 nothing wraps: the result is that of the
-- formula over the natural numbers.
pub tokens_of-exact :
    (base width height : ℕ)
    → base ≤ 96
    → 0 < width
    → 0 < height
    → width ≤ 16_777_216
    → height ≤ 16_777_216
    → tokens_of base width height ≡ exact_tokens base width height
unfolding tokens_of exact_tokens patches
tokens_of-exact base width height b pw ph w h =
    let long = max width height in
    let short = min width height in
    let el : (if ltb width height then height else width) ≡ long = ground arith in
    let es : (if ltb width height then width else height) ≡ short = ground arith in
    let bs : base * short ≤ 96 * 16_777_216 = mul-le-mul {m₂ = 16_777_216} b (omega arith) in
    let m1 : mul64 base short ≡ base * short = omega arith in
    let r = rounded (base * short) long in
    let e1 = round-exact (base * short) long (omega arith) (omega arith) in
    let br = rounded-le base short long (omega arith) (omega arith) in
    let bp : base * r ≤ 96 * 96 = mul-le-mul {m₂ = 96} b (omega arith) in
    let m2 : mul64 base r ≡ base * r = omega arith in
    let ba : width * height ≤ 16_777_216 * 16_777_216 = mul-le-mul w h in
    let m3 : mul64 width height ≡ width * height = omega arith in
    let m4 : add64 formula_bias (width * height) ≡ formula_bias + width * height = omega arith in
    let bn : base * r * (formula_bias + width * height)
        ≤ 9216 * (formula_bias + 281_474_976_710_656) =
      mul-le-mul {m₂ = formula_bias + 281_474_976_710_656} bp (omega arith) in
    let m5 : mul64 (base * r) (formula_bias + width * height)
        ≡ base * r * (formula_bias + width * height) =
      omega arith in
    rw (el, es, m1, e1, m2, m3, m4, m5)
      (ceil-exact (base * r * (formula_bias + width * height)) formula_scale (omega arith)
        (omega arith))
