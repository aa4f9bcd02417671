-- ===== src/Usage/Tokens.antt =====
-- backend/internal/gateway/usage_cache.go and `splitInputTokenBuckets` of outcome.go: how many tokens
-- were written to the cache, and the split of a response's input tokens into exclusive buckets.
use airgate_openai.Base.{
  ltb, ◌==◌, if◌then◌else◌, Option-cases, All, Text, codes, ℕ, ◌+◌, ◌-◌, ◌≤◌, ◌≡◌, sym, ap, ◌∙◌,
  inl, inr, Option, none, some, List, [], ◌∷◌, ◌++◌, arith,
}
use airgate_openai.Base.Int.{ℤ, pos_part, max_int}

-- The paths of the alternative totals, in the order of the source.
abbrev pub total_paths : List Text
total_paths =
    codes "input_tokens_details.cache_write_tokens"
    ∷ codes "prompt_tokens_details.cache_write_tokens"
    ∷ codes "input_tokens_details.cache_creation_tokens"
    ∷ codes "prompt_tokens_details.cache_creation_tokens"
    ∷ codes "cache_creation_input_tokens"
    ∷ codes "cache_write_input_tokens"
    ∷ codes "cache_write_tokens"
    ∷ codes "cache_creation_tokens"
    ∷ []

abbrev pub five_minutes_path : Text
five_minutes_path = codes "cache_creation.ephemeral_5m_input_tokens"

abbrev pub one_hour_path : Text
one_hour_path = codes "cache_creation.ephemeral_1h_input_tokens"

-- `read` of a path; what is absent reads as zero.
abbrev pub value_or_zero : Option ℤ → ℕ
value_or_zero none = 0
value_or_zero (some v) = pos_part v

-- The first total that is there.
unfoldable pub first_total : (Text → Option ℤ) → List Text → Option ℕ
first_total read [] = none
first_total read (p ∷ ps) = elim (read p) [
  | some v ↦ some (pos_part v)
  | none ↦ first_total read ps
]

unfoldable pub cache_creation_tokens_from_fields : (Text → Option ℤ) → ℕ
cache_creation_tokens_from_fields read = elim (first_total read total_paths) [
  | some n ↦ n
  | none ↦
      let five_minutes = value_or_zero (read five_minutes_path) in
      let one_hour = value_or_zero (read one_hour_path) in
      if ltb (max_int - one_hour) five_minutes then max_int else five_minutes + one_hour
]

pub record Buckets : Type 0 where
  pub ordinary : ℕ
  pub cached : ℕ
  pub created : ℕ

-- No step of the source goes below zero once the arguments are clamped.
unfoldable pub split_input_token_buckets : ℤ → ℤ → ℤ → Buckets
split_input_token_buckets raw cached created =
    let n = pos_part raw in
    if n == 0
    then record { ordinary = 0; cached = 0; created = 0 }
    else let c = if ltb n (pos_part cached) then n else pos_part cached in
      let remaining = n - c in
      let w = if ltb remaining (pos_part created) then remaining else pos_part created in
      record { ordinary = remaining - w; cached = c; created = w }

-- The three buckets make up the reported input tokens, and neither of the two of the cache is larger
-- than what was reported of it.
pub split_input_token_buckets-sum :
    (raw cached created : ℤ)
    → let b = split_input_token_buckets raw cached created in
      (b.ordinary + b.cached + b.created ≡ pos_part raw)
      × (b.cached ≤ pos_part cached)
      × (b.created ≤ pos_part created)
unfolding split_input_token_buckets
split_input_token_buckets-sum raw cached created = ground arith

-- A report of the cache that fits into the input is kept as it is.
pub split_input_token_buckets-kept :
    (raw cached created : ℤ)
    → pos_part cached + pos_part created ≤ pos_part raw
    → let b = split_input_token_buckets raw cached created in
      (b.cached ≡ pos_part cached) × (b.created ≡ pos_part created)
unfolding split_input_token_buckets
split_input_token_buckets-kept raw cached created f = ground arith

abbrev IsInt : Option ℤ → Type 0
IsInt o = value_or_zero o ≤ max_int

first_total-bound :
    (read : Text → Option ℤ) (ps : List Text) {n : ℕ}
    → ((p : Text) → IsInt (read p))
    → first_total read ps ≡ some n
    → n ≤ max_int
unfolding first_total
first_total-bound read [] b e = absurd (cc)
first_total-bound read (p ∷ ps) {n} b e = elim (Option-cases (read p)) [
  | inl absent ↦ first_total-bound read ps {n = n} b (rw (absent, first_total) at e)
  | inr (v, present) ↦ ground (arith, b p)
]

-- The count of cache writes is an `int` whenever every field that is read is one: the sum of the two
-- durations stops at the largest `int`.
pub cache_creation_tokens-bound :
    (read : Text → Option ℤ)
    → ((p : Text) → value_or_zero (read p) ≤ max_int)
    → cache_creation_tokens_from_fields read ≤ max_int
unfolding cache_creation_tokens_from_fields
cache_creation_tokens-bound read b = elim (Option-cases (first_total read total_paths)) [
  | inl absent ↦ rw (absent, cache_creation_tokens_from_fields) (ground (arith, b one_hour_path))
  | inr (n, present) ↦
      rw (present, cache_creation_tokens_from_fields) (first_total-bound read total_paths b present)
]

first_total-append :
    (read : Text → Option ℤ) (ps qs : List Text) (p : Text) (v : ℤ)
    → All (λ q. read q ≡ none) ps
    → read p ≡ some v
    → first_total read (ps ++ p ∷ qs) ≡ some (pos_part v)
unfolding first_total
first_total-append read [] qs p v a e = rw (e, first_total)
first_total-append read (q ∷ ps) qs p v a e =
    rw (a.0, first_total) (first_total-append read ps qs p v a.1 e)

-- Of the alternative totals the first that is reported is the count, a reported zero as well, and
-- nothing is added to it.
pub cache_creation_tokens-total :
    (read : Text → Option ℤ) (ps qs : List Text) (p : Text) (v : ℤ)
    → ps ++ p ∷ qs ≡ total_paths
    → All (λ q. read q ≡ none) ps
    → read p ≡ some v
    → cache_creation_tokens_from_fields read ≡ pos_part v
unfolding cache_creation_tokens_from_fields
cache_creation_tokens-total read ps qs p v s a e =
    let t = ap (first_total read) (sym s) ∙ first_total-append read ps qs p v a e in
    rw (t, cache_creation_tokens_from_fields)
