-- ===== src/Errors/Blank.antt =====
-- `containsAnyInParts` of backend/internal/gateway/responses_failure.go: what the loss of the blanks
-- around its words does.
use airgate_openai.Base.{
  if_true, take, Text, codes, is_empty, is_space, trim_space, trim_left, to_lower, has_prefix,
  contains, join_space, is_blank, ◌≡◌, refl, Bool, true, false, ◌&&◌, ◌||◌, List, [], ◌∷◌, ◌++◌,
  arith,
}
use mathlib.Core.List.{reverse, reverse_aux}
use airgate_openai.Errors.Keywords.{
  contains_trimmed, contains_any_in_parts, entity_too_large, context_too_large,
  is_context_too_large_error, context_too_large_status,
}

abbrev all_space : Text → Bool
all_space [] = true
all_space (c ∷ s) = is_space c && all_space s

all_space-reverse_aux : (s t : Text) → all_space (reverse_aux s t) ≡ (all_space s && all_space t)
all_space-reverse_aux [] t = refl
all_space-reverse_aux (c ∷ s) t = ground (arith, all_space-reverse_aux s (c ∷ t))

is_empty-reverse_aux : (s t : Text) → is_empty (reverse_aux s t) ≡ (is_empty s && is_empty t)
is_empty-reverse_aux [] t = refl
is_empty-reverse_aux (c ∷ s) t = ground (arith, is_empty-reverse_aux s (c ∷ t))

is_empty-trim_left : (s : Text) → is_empty (trim_left s) ≡ all_space s
unfolding trim_left
is_empty-trim_left [] = refl
is_empty-trim_left (c ∷ s) = ground (arith, is_empty-trim_left s)

all_space-trim_left : (s : Text) → all_space (trim_left s) ≡ all_space s
unfolding trim_left
all_space-trim_left [] = refl
all_space-trim_left (c ∷ s) = ground (arith, all_space-trim_left s)

-- A text is blank when all of it is space.
is_blank-all_space : (s : Text) → is_blank s ≡ all_space s
unfolding trim_space
is_blank-all_space s =
    let t = trim_left s in
    let a = is_empty-reverse_aux (trim_left (reverse t)) [] in
    let b = is_empty-trim_left (reverse t) in
    let c = all_space-reverse_aux t [] in let d = all_space-trim_left s in ground arith

-- The digits 413 are no space.
contains-not_blank : (s : Text) → contains s (codes "413") ≡ true → all_space s ≡ false
unfolding contains has_prefix is_space
contains-not_blank [] h = ground arith
contains-not_blank (c ∷ s) h = ground (arith, contains-not_blank s)

contains_trimmed-append :
    (s : Text) (xs ys : List Text)
    → contains_trimmed s (xs ++ ys) ≡ (contains_trimmed s xs || contains_trimmed s ys)
unfolding contains_trimmed
contains_trimmed-append s [] ys = refl
contains_trimmed-append s (x ∷ xs) ys = ground (arith, contains_trimmed-append s xs ys)

trimmed_413 :
    (s : Text) → contains_trimmed s (codes " 413" ∷ []) ≡ (contains s (codes "413") || false)
unfolding contains_trimmed trim_space trim_left is_space to_lower
trimmed_413 s = refl

-- The last word, `" 413"`, is sought without its blank.
last_word :
    (s : Text) (ks : List Text)
    → contains s (codes "413") ≡ true
    → contains_trimmed s (ks ++ codes " 413" ∷ []) ≡ true
last_word s ks h =
    let a = contains_trimmed-append s ks (codes " 413" ∷ []) in
    let b = trimmed_413 s in ground arith

found_413 :
    (parts ks : List Text)
    → contains (to_lower (join_space parts)) (codes "413") ≡ true
    → contains_any_in_parts parts (ks ++ codes " 413" ∷ []) ≡ true
unfolding contains_any_in_parts
found_413 parts ks h =
    let s = to_lower (join_space parts) in
    let a = is_blank-all_space s in
    let b = contains-not_blank s h in let c = last_word s ks h in ground arith

-- An error whose texts hold the digits 413 anywhere is held to tell of a context that is too large,
-- with the status 413, since the blank before the word ` 413` is lost.
pub is_context_too_large_error-413 :
    (parts : List Text)
    → contains (to_lower (join_space parts)) (codes "413") ≡ true
    → (is_context_too_large_error parts ≡ true) × (context_too_large_status parts ≡ 413)
unfolding is_context_too_large_error context_too_large_status
is_context_too_large_error-413 parts h = (
  found_413 parts (take 14 context_too_large) h,
  if_true 413 400 (found_413 parts (take 6 entity_too_large) h),
)
