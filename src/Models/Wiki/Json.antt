-- ===== src/Models/Wiki/Json.antt =====
-- models/wiki.py: the values of JSON, and the scalars among them.
use yandex_workspace_mcp.Prelude.{Bool, true, false, Text, List, [], ◌∷◌, Option, none, some}
use yandex_workspace_mcp.Prelude.Int.{ℤ}

-- A value that `json.loads` gives. A float is the text of the number, and whether it is finite.
mutual
  pub data Json : Type 0 where
    json_none : Json
    json_text : Text → Json
    json_bool : Bool → Json
    json_int : ℤ → Json
    json_float : (literal : Text) (finite : Bool) → Json
    json_list : Values → Json
    json_dict : Entries → Json

  pub data Values : Type 0 where
    no_values : Values
    item_value : Json → Values → Values

  pub data Entries : Type 0 where
    no_entries : Entries
    item_entry : Text → Json → Entries → Entries

-- JsonScalar: text, a truth value, a whole number, a finite number or nothing.
pub data JsonScalar : Type 0 where
  none_scalar : JsonScalar
  text_scalar : Text → JsonScalar
  bool_scalar : Bool → JsonScalar
  int_scalar : ℤ → JsonScalar
  float_scalar : (literal : Text) → JsonScalar

-- _is_scalar, with the value as a scalar where it is one.
unfoldable pub scalar_of : Json → Option JsonScalar
scalar_of json_none = some none_scalar
scalar_of (json_text t) = some (text_scalar t)
scalar_of (json_bool b) = some (bool_scalar b)
scalar_of (json_int i) = some (int_scalar i)
scalar_of (json_float literal true) = some (float_scalar literal)
scalar_of (json_float literal false) = none
scalar_of (json_list _) = none
scalar_of (json_dict _) = none

-- _scalar_dict
abbrev pub keep_scalar :
    Text → Option JsonScalar → List (Text × JsonScalar) → List (Text × JsonScalar)
keep_scalar key none rest = rest
keep_scalar key (some scalar) rest = (key, scalar) ∷ rest

unfoldable pub scalars : List (Text × Json) → List (Text × JsonScalar)
scalars [] = []
scalars ((key, json) ∷ values) = keep_scalar key (scalar_of json) (scalars values)

unfoldable pub scalar_dict : Option (List (Text × Json)) → List (Text × JsonScalar)
scalar_dict none = []
scalar_dict (some values) = scalars values

-- _optional_string, of `values.get(key)`
unfoldable pub optional_string : Option JsonScalar → Option Text
optional_string none = none
optional_string (some (text_scalar t)) = some t
optional_string (some (none_scalar)) = none
optional_string (some (bool_scalar b)) = none
optional_string (some (int_scalar i)) = none
optional_string (some (float_scalar literal)) = none
