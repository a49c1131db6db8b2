-- ===== src/Mcptest.antt =====
-- internal/mcptest/call_tool_result.go: what a client reads in the result of a tool call. Package
-- json finds the value in a text by `parse`, and package reflect compares two values by
-- `deep_equal`.
pub mod Envelopes
mod Tests
use flashgate_mcp.Base.{
  ℕ, Bool, true, false, not, ◌&&◌, ◌||◌, Option, none, some, List, [], ◌∷◌, ◌==◌, length, String,
  str_eq, codes, is_blank, if◌then◌else◌,
}
use flashgate_mcp.Json.{
  Json, null, bool, string, array, object, Items, nil, cons, Raw, RawMap, get, to_map, as_string,
  is_object,
}

pub record DecodedCallToolResult : Type 0 where
  pub text_content : Json
  pub structured_content : Option Json
  pub is_error : Bool

-- Every key of an object is one of these.
member : String → List String → Bool
member key [] = false
member key (name ∷ names) = str_eq key name || member key names

keys_among : List String → RawMap → Bool
unfolding member
keys_among names [] = true
keys_among names ((k, raw) ∷ m) = member k names && keys_among names m

block_text : Option Raw → Option Raw → Option String
block_text (some type) (some text) = elim (as_string type.value) [
  | none ↦ none
  | some t ↦ if str_eq t "text" then as_string text.value else none
]
block_text _ _ = none

-- `decodeTextBlock`
decode_text_block : Json → Option String
unfolding keys_among block_text to_map get
decode_text_block (object fs) =
    let m = to_map fs in
    if keys_among ("type" ∷ "text" ∷ []) m then block_text (get m "type") (get m "text") else none
decode_text_block _ = none

non_blank_text : Option Raw → Bool
non_blank_text none = false
non_blank_text (some raw) = elim raw.value [ string s ↦ not (is_blank (codes s)) | _ ↦ false ]

-- A category and a message, and nothing else.
is_error_payload : Json → Bool
unfolding non_blank_text to_map get
is_error_payload (object fs) =
    let m = to_map fs in
    length m == 2 && non_blank_text (get m "category") && non_blank_text (get m "message")
is_error_payload _ = false

-- Whether the result is an error; `none` where the field is no Boolean.
error_flag : Option Raw → Option Bool
error_flag none = some false
error_flag (some raw) = elim raw.value [ bool b ↦ some b | _ ↦ none ]

module _ (parse : String → Option Json) (deep_equal : Json → Json → Bool) where
  -- The object that the text of a block encodes.
  block_object : Option String → Option Json
  block_object none = none
  block_object (some s) = elim (parse s) [
    | none ↦ none
    | some v ↦ if is_object v then some v else none
  ]

  -- The only block of the content.
  content_object : Json → Option Json
  unfolding block_object decode_text_block
  content_object (array (cons block nil)) = block_object (decode_text_block block)
  content_object _ = none

  decode_error : Json → Option Raw → Option DecodedCallToolResult
  unfolding is_error_payload
  decode_error text (some structured) = none
  decode_error text none =
      if is_error_payload text
      then some (record { text_content = text; structured_content = none; is_error = true })
      else none

  decode_success : Json → Option Raw → Option DecodedCallToolResult
  decode_success text none = none
  decode_success text (some structured) =
      if not (is_object structured.value)
      then none
      else if not (deep_equal text structured.value)
      then none
      else some (record {
        text_content = text;
        structured_content = some structured.value;
        is_error = false;
      })

  decode_flagged : RawMap → Json → Option Bool → Option DecodedCallToolResult
  unfolding decode_error decode_success get
  decode_flagged m text none = none
  decode_flagged m text (some true) = decode_error text (get m "structuredContent")
  decode_flagged m text (some false) = decode_success text (get m "structuredContent")

  decode_content : RawMap → Option Json → Option DecodedCallToolResult
  unfolding decode_flagged error_flag get
  decode_content m none = none
  decode_content m (some text) = decode_flagged m text (error_flag (get m "isError"))

  content_of : RawMap → Option Json
  unfolding content_object get
  content_of m = elim (get m "content") [ none ↦ none | some raw ↦ content_object raw.value ]

  -- `DecodeCallToolResult`; `none` is its error.
  unfoldable pub decode_call_tool_result : Json → Option DecodedCallToolResult
  unfolding decode_content content_of keys_among to_map
  decode_call_tool_result (object fs) =
      let m = to_map fs in
      if keys_among ("content" ∷ "structuredContent" ∷ "isError" ∷ []) m
      then decode_content m (content_of m)
      else none
  decode_call_tool_result _ = none
