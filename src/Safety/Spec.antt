-- ===== src/Safety/Spec.antt =====
-- What the safety cache promises: a list of items in the order of their last refresh, oldest first.
use airgate_openai.Base.{
  ltb, leb, ◌==◌, if◌then◌else◌, length, Text, Text-discrete, is_empty, get, Distinct, get-put,
  get-delete, ℕ, suc, ◌+◌, ◌-◌, ◌≡◌, ite, false, Option, none, some, List, [], ◌∷◌, ◌++◌, arith,
  ℕ_discrete,
}
use airgate_openai.Safety.Cache.{
  SafetyRequestCache, category_count, increment_category, decrement_category,
}
use airgate_openai.Safety.Segment.{Item, Avoids, AreDistinct}
use airgate_openai.Safety.Chain.{IsLinked}

-- The items from the first that lives past `now`.
unfoldable pub drop_expired : ℕ → List Item → List Item
drop_expired now [] = []
drop_expired now (x ∷ xs) = if ltb now x.expires_at then x ∷ xs else drop_expired now xs

-- The newest items, fewer than the limit.
unfoldable pub drop_oldest : ℕ → List Item → List Item
drop_oldest limit [] = []
drop_oldest limit (x ∷ xs) = if leb limit (length (x ∷ xs)) then drop_oldest limit xs else x ∷ xs

unfoldable pub find : ℕ → List Item → Option Item
find h [] = none
find h (x ∷ xs) = if x.hash == h then some x else find h xs

unfoldable pub without : ℕ → List Item → List Item
without h [] = []
without h (x ∷ xs) = if x.hash == h then xs else x ∷ without h xs

unfoldable pub refreshed : ℕ → Text → Text → Item → Item
refreshed expires_at reason category x = record x {
  expires_at = expires_at;
  reason = if is_empty reason then x.reason else reason;
  category = if is_empty category then x.category else category;
}

unfoldable pub spec_add : ℕ → ℕ → Text → Text → ℕ → List Item → List Item
spec_add limit expires_at reason category h l = elim (find h l) [
  | some x ↦ without h l ++ refreshed expires_at reason category x ∷ []
  | none ↦
      drop_oldest limit l
      ++ record { expires_at = expires_at; reason = reason; category = category; hash = h } ∷ []
]

unfoldable pub spec_add_all : ℕ → ℕ → Text → Text → List ℕ → List Item → List Item
spec_add_all limit expires_at reason category [] l = l
spec_add_all limit expires_at reason category (h ∷ hs) l =
    spec_add_all limit expires_at reason category hs (spec_add limit expires_at reason category h l)

-- How many items have the category.
abbrev pub count_in : Text → List Item → ℕ
count_in category [] = 0
count_in category (x ∷ xs) =
    ite (Text-discrete x.category category) (suc (count_in category xs)) (count_in category xs)

-- The cache holds exactly the items: its chain, its map and its counts agree.
pub record Represents (ttl max_entries : ℕ) (c : SafetyRequestCache) (l : List Item) : Type 0 where
  pub linked : IsLinked c l
  pub items_distinct : AreDistinct l
  pub entries_distinct : Distinct ℕ_discrete c.entries
  pub absent : (k : ℕ) → Avoids k l → get ℕ_discrete k c.entries ≡ none
  pub size : length c.entries ≡ length l
  pub counts :
      (category : Text)
      → is_empty category ≡ false
      → category_count category c.categories ≡ count_in category l
  pub same_ttl : c.ttl ≡ ttl
  pub same_limit : c.max_entries ≡ max_entries

-- What counts say of an increment and a decrement.
pub category_count-increment :
    (category k : Text) (c : SafetyRequestCache)
    → is_empty category ≡ false
    → category_count category (increment_category k c).categories
      ≡ ite
          (Text-discrete k category)
          (suc (category_count category c.categories))
          (category_count category c.categories)
unfolding category_count increment_category
category_count-increment category k c h =
    ground
      (arith, get-put Text-discrete category k (category_count k c.categories + 1) c.categories)

pub category_count-decrement :
    (category k : Text) (c : SafetyRequestCache)
    → is_empty category ≡ false
    → category_count category (decrement_category k c).categories
      ≡ ite
          (Text-discrete k category)
          (category_count category c.categories - 1)
          (category_count category c.categories)
unfolding category_count decrement_category
category_count-decrement category k c h = ground (
  arith,
  get-put Text-discrete category k (category_count k c.categories - 1) c.categories,
  get-delete Text-discrete category k c.categories,
)
