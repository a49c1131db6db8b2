-- ===== src/Benchmark/StrictJson.antt =====
-- internal/benchmark/strict_json.go. A type of Go is what package reflect says of it; the text of
-- an error, with the path to the value, is left out.
pub mod Distinctness
use flashgate_mcp.Base.{
  ℕ, Bool, true, false, not, ◌&&◌, ◌||◌, Option, none, some, List, [], ◌∷◌, String, str_eq,
  if◌then◌else◌,
}
use flashgate_mcp.Json.{
  Json, null, bool, number, string, array, object, Items, nil, cons, Fields, end, field, every_item,
  every_field,
}

mutual
  -- The kinds of a destination.
  pub data Shape : Type 0 where
    pointer slice dictionary : Shape → Shape
    structure : Members → Shape
    time text boolean numeric anything unsupported : Shape

  -- The fields of a struct: the name, `omitempty`, and the type.
  pub data Members : Type 0 where
    no_member : Members
    member : String → Bool → Shape → Members → Members

seen_before : String → List String → Bool
seen_before k [] = false
seen_before k (s ∷ seen) = str_eq k s || seen_before k seen

unfoldable mutual
  unfolding seen_before

  -- `decodeUniqueJSONValue`, on the value that the tokens spell.
  pub unique_value : Json → Bool
  unique_value (object fs) = unique_fields [] fs
  unique_value (array items) = unique_items items
  unique_value _ = true

  pub unique_items : Items → Bool
  unique_items nil = true
  unique_items (cons v items) = unique_value v && unique_items items

  pub unique_fields : List String → Fields → Bool
  unique_fields seen end = true
  unique_fields seen (field k n v rest) =
      not (seen_before k seen) && (unique_value v && unique_fields (k ∷ seen) rest)

value_of : String → Fields → Option Json
value_of name end = none
value_of name (field k n v rest) = if str_eq k name then some v else value_of name rest

-- A field with the name "-" or none is passed over.
is_skipped : String → Bool
is_skipped name = str_eq name "-" || str_eq name ""

is_member : Members → String → Bool
unfolding is_skipped
is_member no_member key = false
is_member (member name omit s ms) key = not (is_skipped name) && str_eq name key || is_member ms key

unfoldable mutual
  unfolding value_of is_skipped is_member every_item every_field

  -- `validateJSONShape`
  pub validate_json_shape : Shape → Json → Bool
  validate_json_shape s null = false
  validate_json_shape (pointer s) v = validate_json_shape s v
  validate_json_shape time (string t) = true
  validate_json_shape (structure ms) (object fs) =
      members_valid ms fs && every_field (λ k v. is_member ms k) fs
  validate_json_shape (slice s) (array items) = every_item (λ v. validate_json_shape s v) items
  validate_json_shape (dictionary s) (object fs) = every_field (λ k v. validate_json_shape s v) fs
  validate_json_shape text (string t) = true
  validate_json_shape boolean (bool b) = true
  validate_json_shape numeric (number n) = true
  validate_json_shape anything v = true
  validate_json_shape _ _ = false

  -- The fields of the struct, one after the other.
  pub members_valid : Members → Fields → Bool
  members_valid no_member fs = true
  members_valid (member name omit s ms) fs =
      let found : Bool = elim (value_of name fs) [
        | none ↦ omit
        | some v ↦ validate_json_shape s v
      ] in
      (is_skipped name || found) && members_valid ms fs

module _ {A : Type 0} (decode : List ℕ → Option Json) (typed : Json → Option A) where
  strict_value : Shape → Option Json → Option A
  unfolding unique_value validate_json_shape
  strict_value s none = none
  strict_value s (some v) =
      if not (unique_value v) then none else if not (validate_json_shape s v) then none else typed v

  -- `decodeStrictJSON`, into a type of this shape
  unfoldable pub decode_strict_json : Shape → List ℕ → Option A
  unfolding strict_value
  decode_strict_json s bytes = strict_value s (decode bytes)
