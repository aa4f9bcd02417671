-- ===== src/Figures.antt =====
-- The theorems at concrete inputs: tokens, tiers, sizes and lengths.
use airgate_openai.Base.{codes, ℕ, ◌+◌, ◌≤◌, ◌≡◌, refl, false, [], ◌∷◌, arith}
use airgate_openai.Base.Int.{pos, pos_part}
use airgate_openai.Usage.Tokens.{split_input_token_buckets, split_input_token_buckets-sum}
use airgate_openai.Usage.Tiers.{
  resolve_usage_service_tier, reported_tiers, requested_tiers, tier_in,
  resolve_usage_service_tier_lem,
}
use airgate_openai.Images.Size.{
  tier_of_size, tier_1k, clamp_image_size, tier_of_size-wrapped, clamp_image_size-edge,
}
use airgate_openai.Images.Tokens.{tokens_of, exact_tokens, tokens_of-exact}
use airgate_openai.Images.Scale.{Limits, with_multiple, scale_to_constraints}
use airgate_openai.Images.Fit.{Ends, scale_to_constraints-Ends}
use airgate_openai.Responses.Limits.{LimitedWriter, Chunk}
use airgate_openai.Responses.Budget.{write_all, sum, write_all-within}

split_input_token_buckets-sum_example :
    let b = split_input_token_buckets (pos 100) (pos 80) (pos 50) in
    (b.ordinary + b.cached + b.created ≡ pos_part (pos 100))
    × (b.cached ≤ pos_part (pos 80))
    × (b.created ≤ pos_part (pos 50))
split_input_token_buckets-sum_example = split_input_token_buckets-sum (pos 100) (pos 80) (pos 50)

resolve_usage_service_tier_lem_example :
    resolve_usage_service_tier (codes "fast") (codes "default")
    ≡ tier_in reported_tiers (codes "default") (tier_in requested_tiers (codes "fast") [])
resolve_usage_service_tier_lem_example =
    resolve_usage_service_tier_lem (codes "fast") (codes "default")

tier_of_size-wrapped_example : tier_of_size (4294967296, 4294967296) ≡ tier_1k
tier_of_size-wrapped_example = tier_of_size-wrapped 4294967296 4294967296 1 refl

clamp_image_size-edge_example :
    let (w', h') = clamp_image_size 4000 3000 2048 in (pos_part w' ≤ 2048) × (pos_part h' ≤ 2048)
clamp_image_size-edge_example =
    clamp_image_size-edge 4000 3000 2048 (omega arith) (omega arith) (omega arith) (omega arith)

tokens_of-exact_example : tokens_of 48 1024 1536 ≡ exact_tokens 48 1024 1536
tokens_of-exact_example =
    tokens_of-exact 48 1024 1536 (omega arith) (omega arith) (omega arith) (omega arith)
      (omega arith)

abbrev limits : Limits
limits = record { max_long_edge = 2048; max_pixels = 4_194_304; multiple = 16 }

abbrev long_side : ℕ → ℕ → ℕ → ℕ
long_side pixels long short = 2048

scale_to_constraints-Ends_example :
    Ends (with_multiple limits) 4000 3000 (scale_to_constraints long_side limits 4000 3000)
scale_to_constraints-Ends_example = scale_to_constraints-Ends long_side limits 4000 3000

-- A writer with a limit of ten bytes, and three chunks of which the second does not fit.
abbrev writer : LimitedWriter
writer = record { bytes = 0; wrote = false; exceeded = false }

abbrev chunk : ℕ → Chunk
chunk n = record { size = n; written = n; is_exhausted = false }

write_all-within_example : 0 + sum (write_all 10 (chunk 8 ∷ chunk 3 ∷ chunk 1 ∷ []) writer).1 ≤ 10
write_all-within_example =
    write_all-within 10 (chunk 8 ∷ chunk 3 ∷ chunk 1 ∷ []) writer (omega arith)
