-- ===== src/Images/Scale.antt =====
-- backend/internal/gateway/image_size_util.go: `scaleImageSizeToConstraints`, which looks for the
-- largest size of nearly the same shape whose sides are multiples of a number and that lies within
-- the limits. The float computation of the side that the pixels allow, `math.Sqrt` of the limit times
-- the ratio of the sides, is a parameter: the maximal pixels, the long and the short edge go in.
use airgate_openai.Base.{
  ltb, leb, ◌==◌, if◌then◌else◌, any, ℕ, zero, suc, ◌+◌, ◌-◌, ◌*◌, ◌/◌, Bool, true, false, ◌&&◌,
  ◌||◌, Option, none, some, List, [], ◌∷◌, ◌++◌,
}
use airgate_openai.Base.Int.{pos_part, ℤ, pos, negsuc}
use airgate_openai.Images.Size.{wrap64, at_most, at_least, scale_image_dimension}

-- The three roundings, of a positive value to a positive multiple. A sum that wraps to a negative
-- value gives what is not positive in the end, and 0 stands for that.
unfoldable pub round_to_multiple : ℕ → ℕ → ℕ
round_to_multiple value multiple =
    let rounded = pos_part (wrap64 (value + multiple / 2)) / multiple * multiple in
    if ltb rounded multiple then multiple else rounded

unfoldable pub floor_to_multiple : ℕ → ℕ → ℕ
floor_to_multiple value multiple = value / multiple * multiple

unfoldable pub ceil_to_multiple : ℕ → ℕ → ℕ
ceil_to_multiple value multiple = pos_part (wrap64 (value + multiple - 1)) / multiple * multiple

-- `if _, ok := seen[candidate]; ok { continue }`, on those that are positive.
abbrev pub keep_new : ℕ → List ℕ → List ℕ
keep_new c seen = if c == 0 || any (λ d. c == d) seen then seen else seen ++ c ∷ []

-- A value that is not positive is returned by all three roundings, and is no candidate.
unfoldable pub multiple_candidates : ℤ → ℕ → List ℕ
unfolding round_to_multiple floor_to_multiple ceil_to_multiple
multiple_candidates (negsuc n) multiple = []
multiple_candidates (pos zero) multiple = []
multiple_candidates (pos (suc n)) multiple =
    let v = suc n in
    keep_new (ceil_to_multiple v multiple)
      (keep_new (floor_to_multiple v multiple) (keep_new (round_to_multiple v multiple) []))

pub record Limits : Type 0 where
  pub max_long_edge : ℕ
  pub max_pixels : ℕ
  pub multiple : ℕ

-- A limit of 0 stands for one that is not positive, and is no limit.
unfoldable pub within_constraints : Limits → ℕ → ℕ → ℕ → ℕ → Bool
unfolding wrap64
within_constraints k original_width original_height width height =
    let long = if ltb width height then height else width in
    let short = if ltb width height then width else height in
    ltb 0 width
    && ltb 0 height
    && leb width original_width
    && leb height original_height
    && (k.max_long_edge == 0 || leb long k.max_long_edge)
    && (k.max_pixels == 0 || at_most (wrap64 (width * height)) k.max_pixels)
    && at_least (wrap64 (short * 3)) long

-- The loop over the candidates for the short edge.
unfoldable pub first_within : Limits → Bool → ℕ → ℕ → ℕ → List ℕ → Option (ℕ × ℕ)
unfolding within_constraints
first_within k long_is_width w h long [] = none
first_within k long_is_width w h long (short ∷ rest) =
    let w' = if long_is_width then long else short in
    let h' = if long_is_width then short else long in
    if within_constraints k w h w' h'
    then some (w', h')
    else first_within k long_is_width w h long rest

-- What the search ends with; the outer `none` says that the fuel ran out.
abbrev pub Search : Type 0
Search = Option (Option (ℕ × ℕ))

unfoldable pub search_loop : ℕ → Limits → Bool → ℕ → ℕ → ℕ → Search
unfolding first_within multiple_candidates scale_image_dimension
search_loop zero k long_is_width w h candidate = none
search_loop (suc fuel) k long_is_width w h candidate =
    let long_edge = if long_is_width then w else h in
    let short_edge = if long_is_width then h else w in
    elim (leb k.multiple candidate) [
      | false ↦ some none
      | true ↦
          elim (first_within k long_is_width w h candidate (
            multiple_candidates (scale_image_dimension short_edge long_edge candidate)
              k.multiple)) [
                | some d ↦ some (some d)
                | none ↦ search_loop fuel k long_is_width w h (candidate - k.multiple)
              ]
    ]

-- The multiple of the source, where one that is not positive is 1.
abbrev pub with_multiple : Limits → Limits
with_multiple k = if k.multiple == 0 then record k { multiple = 1 } else k

module _ (pixel_limited_long : ℕ → ℕ → ℕ → ℕ) where
  unfoldable pub target_long : Limits → ℕ → ℕ → ℕ
  target_long k long short =
      let a = if ltb 0 k.max_long_edge && ltb k.max_long_edge long then k.max_long_edge else long in
      let limited = pixel_limited_long k.max_pixels long short in
      floor_to_multiple (if ltb 0 k.max_pixels then (if ltb limited a then limited else a) else a)
        k.multiple

  unfoldable pub scale_with : Limits → ℕ → ℕ → Search
  unfolding target_long search_loop
  scale_with k w h =
      let long_is_width = leb h w in
      let target =
        target_long k (if long_is_width then w else h) (if long_is_width then h else w) in
      if ltb target k.multiple
      then some none
      else search_loop (target + 1) k long_is_width w h target

  unfoldable pub scale_to_constraints : Limits → ℕ → ℕ → Search
  unfolding scale_with
  scale_to_constraints k w h =
      if w == 0 || h == 0 then some none else scale_with (with_multiple k) w h
