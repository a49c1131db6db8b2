-- ===== src/Json.antt =====
-- JSON values as the server meets them. A message enters as the tree that encoding/json finds in
-- its text, with the lengths of the texts of fields where the program tests them.
pub mod Lookup
use flashgate_mcp.Base.{
  ℕ, Bool, true, false, ◌&&◌, Option, none, some, List, [], ◌∷◌, String, str_eq, if◌then◌else◌,
  Text,
}
use flashgate_mcp.Base.Integer.{ℤ, pos}

-- What the program asks of a number: whether float64 can hold it, and the int64 that its text
-- stands for, if it is one (`1.0` is none).
pub record Number : Type 0 where
  pub finite : Bool
  pub integer : Option ℤ

mutual
  pub data Json : Type 0 where
    null : Json
    bool : Bool → Json
    number : Number → Json
    string : String → Json
    array : Items → Json
    object : Fields → Json

  pub data Items : Type 0 where
    nil : Items
    cons : Json → Items → Items

  -- A field with the length of the text of its value.
  pub data Fields : Type 0 where
    end : Fields
    field : String → ℕ → Json → Fields → Fields

-- `json.RawMessage`, without the spaces around it.
pub record Raw : Type 0 where
  pub size : ℕ
  pub value : Json

-- `map[string]json.RawMessage`
abbrev pub RawMap : Type 0
RawMap = List (String × Raw)

unfoldable pub get : RawMap → String → Option Raw
get [] key = none
get ((k, v) ∷ m) key = if str_eq k key then some v else get m key

unfoldable pub put : RawMap → String → Raw → RawMap
put [] key v = (key, v) ∷ []
put ((k, w) ∷ m) key v = if str_eq k key then (key, v) ∷ m else (k, w) ∷ put m key v

unfoldable pub delete : RawMap → String → RawMap
delete [] key = []
delete ((k, v) ∷ m) key = let rest = delete m key in if str_eq k key then rest else (k, v) ∷ rest

-- The last of several fields of one name counts.
fill : RawMap → Fields → RawMap
fill m end = m
fill m (field k n v rest) = fill (put m k (record { size = n; value = v })) rest

unfoldable pub to_map : Fields → RawMap
unfolding fill put
to_map fs = fill [] fs

unfoldable pub from_map : RawMap → Fields
from_map [] = end
from_map ((k, v) ∷ m) = field k v.size v.value (from_map m)

-- `json.Unmarshal` into a map: null leaves it nil.
unfoldable pub as_map : Json → Option RawMap
unfolding to_map
as_map (object fs) = some (to_map fs)
as_map null = some []
as_map _ = none

-- `json.Unmarshal` into a string: null leaves it empty.
unfoldable pub as_string : Json → Option String
as_string (string s) = some s
as_string null = some ""
as_string _ = none

unfoldable pub is_object : Json → Bool
is_object (object fs) = true
is_object _ = false

unfoldable pub is_null : Json → Bool
is_null null = true
is_null _ = false

-- Every item of an array, and every field of an object, passes a test.
unfoldable pub every_item : (Json → Bool) → Items → Bool
every_item test nil = true
every_item test (cons v items) = test v && every_item test items

unfoldable pub every_field : (String → Json → Bool) → Fields → Bool
every_field test end = true
every_field test (field k n v rest) = test k v && every_field test rest

-- The number that a natural number is written as.
abbrev pub count : ℕ → Json
count n = number (record { finite = true; integer = some (pos n) })

-- What encoding/json does with the texts in values: the bytes of the Go string that a text is
-- read as, the text that the bytes of a Go string are written as, and the text of a whole value.
pub record Encoding : Type 0 where
  pub bytes_of : String → Text
  pub text_of : Text → String
  pub marshal : Json → String
