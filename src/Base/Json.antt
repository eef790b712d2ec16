-- ===== src/Base/Json.antt =====
-- The values that `json.load` returns, and what Python's `get`, `type(x) is int` and `set(x)` say
-- of them. An object's fields stand in the order of the text.
use Prim.Native.Nat.{ℕ}
use Prim.Native.String.{String}
use mathlib.Core.Bool.{Bool, true, false, ◌&&◌, ◌||◌}
use mathlib.Core.Option.{Option, none, some}
use mathlib.Core.List.{List, [], ◌∷◌}
use text.Mathlib.Text.{◌==◌ as str_eq}
use mindflayer_elderbrain.Base.Tests.{if◌then◌else◌}

-- `negative n` is the integer -(n + 1); `real` is a float by its text, which nothing computes with.
mutual
  pub data Value : Type 0 where
    null : Value
    array : Items → Value
    object : Fields → Value
    string real : String → Value
    number negative : ℕ → Value
    bool : Bool → Value

  pub data Fields : Type 0 where
    field : String → Value → Fields → Fields
    end : Fields

  pub data Items : Type 0 where
    item : Value → Items → Items
    stop : Items

abbrev pub lookup_field : String → Fields → Option Value
lookup_field k end = none
lookup_field k (field j v rest) = if str_eq j k then some v else lookup_field k rest

abbrev pub field_names : Fields → List String
field_names end = []
field_names (field j v rest) = j ∷ field_names rest

abbrev pub items : Items → List Value
items stop = []
items (item v rest) = v ∷ items rest

abbrev pub has_name : String → List String → Bool
has_name k [] = false
has_name k (j ∷ rest) = str_eq j k || has_name k rest

abbrev pub all_in : List String → List String → Bool
all_in [] names = true
all_in (k ∷ rest) names = has_name k names && all_in rest names

-- `isinstance(value, dict)` and its fields.
abbrev pub dict? : Value → Option Fields
dict? (object fields) = some fields
dict? _ = none

-- `value.get(key)`, where a value that is no object has no field.
abbrev pub get : String → Value → Option Value
get k (object fields) = lookup_field k fields
get k _ = none

-- `isinstance(value, dict) and set(value) == {...}`.
abbrev pub has_keys : List String → Value → Bool
has_keys names (object fields) =
    all_in names (field_names fields) && all_in (field_names fields) names
has_keys names _ = false

-- `isinstance(value, str)`, `type(value) is int` for an integer that is not negative, and
-- `isinstance(value, list)`.
abbrev pub text? : Option Value → Option String
text? (some (string s)) = some s
text? _ = none

abbrev pub int? : Option Value → Option ℕ
int? (some (number n)) = some n
int? _ = none

abbrev pub list? : Option Value → Option (List Value)
list? (some (array xs)) = some (items xs)
list? _ = none

abbrev pub text_is : String → Option Value → Bool
text_is s v = elim (text? v) [ some t ↦ str_eq t s | none ↦ false ]
