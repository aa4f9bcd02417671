-- ===== src/Base/Json.antt =====
-- A JSON value as Go's `any` holds it, or as the reader of a body finds it: an object has each key
-- once. A number is kept as its literal.
use mathlib.Core.Path.{◌≡◌, refl}
use mathlib.Core.Logic.{ite}
use mathlib.Core.Bool.{Bool, true, false}
use mathlib.Core.Option.{Option, none, some}
use mathlib.Core.List.{List, [], ◌∷◌}
use native.Mathlib.Omega.{arith}
use airgate_openai.Base.Strings.{Text, Text-discrete}

mutual
  pub data Json : Type 0 where
    null : Json
    bool : Bool → Json
    num : Text → Json
    str : Text → Json
    arr : Items → Json
    obj : Fields → Json

  pub data Items : Type 0 where
    nil : Items
    cons : Json → Items → Items

  pub data Fields : Type 0 where
    end : Fields
    field : Text → Json → Fields → Fields

abbrev pub items : Items → List Json
items nil = []
items (cons v vs) = v ∷ items vs

-- `v, ok := m[k]`
unfoldable pub field_at : Text → Fields → Option Json
field_at k end = none
field_at k (field j v fs) = ite (Text-discrete j k) (some v) (field_at k fs)

-- `delete(m, k)`
unfoldable pub remove_field : Text → Fields → Fields
remove_field k end = end
remove_field k (field j v fs) =
    ite (Text-discrete j k) (remove_field k fs) (field j v (remove_field k fs))

-- `m[k] = v`
unfoldable pub set_field : Text → Json → Fields → Fields
set_field k v end = field k v end
set_field k v (field j w fs) = ite (Text-discrete j k) (field k v fs) (field j w (set_field k v fs))

pub field_at-remove_field :
    (j k : Text) (fs : Fields)
    → field_at j (remove_field k fs) ≡ ite (Text-discrete k j) none (field_at j fs)
unfolding field_at remove_field
field_at-remove_field j k end = ground arith
field_at-remove_field j k (field i v fs) = ground (arith, field_at-remove_field j k fs)

pub remove_field_absent : (k : Text) (fs : Fields) → field_at k fs ≡ none → remove_field k fs ≡ fs
unfolding field_at remove_field
remove_field_absent k end h = refl
remove_field_absent k (field i v fs) h = ground (arith, remove_field_absent k fs)

pub field_at-set_field :
    (j k : Text) (v : Json) (fs : Fields)
    → field_at j (set_field k v fs) ≡ ite (Text-discrete k j) (some v) (field_at j fs)
unfolding field_at set_field
field_at-set_field j k v end = refl
field_at-set_field j k v (field i w fs) = ground (arith, field_at-set_field j k v fs)

-- `jsonString(m[k])`, and `s, _ := m[k].(string)`: the empty text for what is no string.
abbrev pub string_of : Option Json → Text
string_of (some (str s)) = s
string_of _ = []

abbrev pub is_string : Option Json → Bool
is_string (some (str s)) = true
is_string _ = false

abbrev pub is_present : Option Json → Bool
is_present none = false
is_present (some v) = true

-- `gjson`'s text of a value: that of a string, none of a missing value, else the raw one.
module _ (raw : Json → Text) where
  abbrev pub text_of : Option Json → Text
  text_of none = []
  text_of (some null) = []
  text_of (some (str s)) = s
  text_of (some v) = raw v

-- `gjson`'s reading of a member.
abbrev pub member : Text → Option Json → Option Json
member k (some (obj fs)) = field_at k fs
member k _ = none
