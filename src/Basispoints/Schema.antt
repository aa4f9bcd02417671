-- ===== src/Basispoints/Schema.antt =====
-- backend/internal/basispoints/plan.go: the small validator of a plan against a client's schema. The
-- reading of a number's literal (`json.Number.Int64`) is a parameter.
use airgate_openai.Base.{
  leb, ◌==◌, length, Text, codes, is_one_of, is_text, ℕ, zero, suc, Bool, true, false, not, ◌&&◌,
  ◌||◌, Option, none, some, [], ◌∷◌,
}
use airgate_openai.Base.Int.{ℤ, pos}
use airgate_openai.Base.Json.{
  Json, null, bool, num, str, arr, obj, Items, nil, cons, Fields, end, field, field_at, is_present,
}

abbrev pub count_fields : Fields → ℕ
count_fields end = 0
count_fields (field k v fs) = suc (count_fields fs)

-- `reflect.DeepEqual` on what `decode` gives: objects are equal as maps.
unfoldable mutual
  pub deep_equal : Json → Json → Bool
  deep_equal null null = true
  deep_equal (bool true) (bool b) = b
  deep_equal (bool false) (bool b) = not b
  deep_equal (num s) (num t) = is_text s t
  deep_equal (str s) (str t) = is_text s t
  deep_equal (arr vs) (arr ws) = items_equal vs ws
  deep_equal (obj fs) (obj gs) = count_fields fs == count_fields gs && fields_in fs gs
  deep_equal _ _ = false

  pub items_equal : Items → Items → Bool
  items_equal nil nil = true
  items_equal (cons v vs) (cons w ws) = deep_equal v w && items_equal vs ws
  items_equal _ _ = false

  pub fields_in : Fields → Fields → Bool
  fields_in end gs = true
  fields_in (field k v fs) gs =
      elim (field_at k gs) [ none ↦ false | some w ↦ deep_equal v w ] && fields_in fs gs

-- `planSchemaTypeMatches`
abbrev pub has_type : Json → Text → Bool
has_type (obj fs) kind = is_text kind (codes "object")
has_type (arr vs) kind = is_text kind (codes "array")
has_type (str s) kind = is_text kind (codes "string")
has_type null kind = is_text kind (codes "null")
has_type _ kind = false

unfoldable mutual
  pub type_matches : Json → Json → Bool
  type_matches value (arr kinds) = any_type_matches value kinds
  type_matches value (str kind) = has_type value kind
  type_matches value _ = false

  pub any_type_matches : Json → Items → Bool
  any_type_matches value nil = false
  any_type_matches value (cons k ks) = type_matches value k || any_type_matches value ks

unfoldable pub is_known_key : Text → Bool
is_known_key key = is_one_of key (
    codes "type"
    ∷ codes "properties"
    ∷ codes "required"
    ∷ codes "additionalProperties"
    ∷ codes "items"
    ∷ codes "enum"
    ∷ codes "const"
    ∷ codes "minItems"
    ∷ codes "maxItems"
    ∷ codes "minLength"
    ∷ codes "maxLength"
    ∷ codes "description"
    ∷ codes "title"
    ∷ codes "default"
    ∷ codes "examples"
    ∷ codes "$comment"
    ∷ [])

abbrev pub all_fields : (Text → Json → Bool) → Fields → Bool
all_fields p end = true
all_fields p (field k v fs) = p k v && all_fields p fs

abbrev pub all_items : (Json → Bool) → Items → Bool
all_items p nil = true
all_items p (cons v vs) = p v && all_items p vs

abbrev pub any_item : (Json → Bool) → Items → Bool
any_item p nil = false
any_item p (cons v vs) = p v || any_item p vs

abbrev pub count_items : Items → ℕ
count_items nil = 0
count_items (cons v vs) = suc (count_items vs)

abbrev optional_properties : Option Json → Bool
optional_properties none = true
optional_properties (some (obj fs)) = true
optional_properties (some v) = false

abbrev properties_of : Option Json → Fields
properties_of (some (obj fs)) = fs
properties_of _ = end

abbrev optional_type : Json → Option Json → Bool
optional_type value none = true
optional_type value (some kind) = type_matches value kind

abbrev optional_const : Json → Option Json → Bool
optional_const value none = true
optional_const value (some v) = deep_equal value v

abbrev optional_enum : Json → Option Json → Bool
optional_enum value none = true
optional_enum value (some (arr vs)) = any_item (deep_equal value) vs
optional_enum value (some v) = false

abbrev is_name_in : Fields → Json → Bool
is_name_in fs (str s) = is_present (field_at s fs)
is_name_in fs _ = false

abbrev optional_required : Fields → Option Json → Bool
optional_required fs none = true
optional_required fs (some (arr names)) = all_items (is_name_in fs) names
optional_required fs (some v) = false

abbrev optional_additional : Option Json → Bool
optional_additional none = true
optional_additional (some (bool b)) = true
optional_additional (some v) = false

abbrev forbids_additional : Option Json → Bool
forbids_additional (some (bool false)) = true
forbids_additional _ = false

-- A property that the schema names must be a schema that accepts; another must not be forbidden.
abbrev property_accepted : (Json → Fields → Bool) → Fields → Option Json → Text → Json → Bool
property_accepted accepts properties additional k v = elim (field_at k properties) [
  | some (obj nested) ↦ accepts v nested
  | some _ ↦ false
  | none ↦ not (forbids_additional additional)
]

abbrev optional_items : (Json → Fields → Bool) → Items → Option Json → Bool
optional_items accepts vs none = true
optional_items accepts vs (some (obj nested)) = all_items (λ v. accepts v nested) vs
optional_items accepts vs (some v) = false

module _ (int64 : Text → Option ℤ) where
  -- One of the limits of `planSchemaLength`.
  abbrev limit : (ℕ → Bool) → Option Json → Bool
  limit p none = true
  limit p (some (num literal)) = elim (int64 literal) [ some (pos n) ↦ p n | _ ↦ false ]
  limit p (some v) = false

  unfoldable pub length_accepted : ℕ → Fields → Text → Text → Bool
  length_accepted n schema minimum maximum =
      limit (λ m. leb m n) (field_at minimum schema)
      && limit (λ m. leb n m) (field_at maximum schema)

  -- What the schema says of every value.
  unfoldable pub value_accepted : Json → Fields → Bool
  value_accepted value schema =
      all_fields (λ k v. is_known_key k) schema
      && optional_properties (field_at (codes "properties") schema)
      && optional_type value (field_at (codes "type") schema)
      && optional_const value (field_at (codes "const") schema)
      && optional_enum value (field_at (codes "enum") schema)

  -- What it says of an object, an array or a string.
  unfoldable pub parts_accepted : (Json → Fields → Bool) → Json → Fields → Bool
  parts_accepted accepts (obj fs) schema =
      let additional = field_at (codes "additionalProperties") schema in
      optional_required fs (field_at (codes "required") schema)
      && optional_additional additional
      && all_fields
          (property_accepted accepts (properties_of (field_at (codes "properties") schema))
            additional)
          fs
  parts_accepted accepts (arr vs) schema =
      length_accepted (count_items vs) schema (codes "minItems") (codes "maxItems")
      && optional_items accepts vs (field_at (codes "items") schema)
  parts_accepted accepts (str s) schema =
      length_accepted (length s) schema (codes "minLength") (codes "maxLength")
  parts_accepted accepts value schema = true

  -- `planSchemaAccepts`, on the levels that are left: 9 at the depth 0, none beyond the depth 8.
  unfoldable pub accepts_within : ℕ → Json → Fields → Bool
  accepts_within zero value schema = false
  accepts_within (suc n) value schema =
      value_accepted value schema && parts_accepted (accepts_within n) value schema

  abbrev pub plan_schema_accepts : Json → Fields → Bool
  plan_schema_accepts value schema = accepts_within 9 value schema
