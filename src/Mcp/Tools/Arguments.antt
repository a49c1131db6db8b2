-- ===== src/Mcp/Tools/Arguments.antt =====
-- params_validation.go of internal/mcp/tools, and the arguments of the eight tools. A value is read
-- into the fields of a struct as encoding/json does it: in the order of the text, and with names
-- compared by simple case folding.
pub mod Strictness
use flashgate_mcp.Base.{
  ℕ, ◌+◌, Bool, true, false, not, ◌&&◌, ◌||◌, Option, none, some, List, [], ◌∷◌, map, ◌==◌, leb,
  if◌then◌else◌, String, str_eq, Text, codes, text_eq, is_blank,
}
use mathlib.Core.Option
use flashgate_mcp.Base.Integer.{ℤ}
use flashgate_mcp.Json.{
  Json, null, bool, number, string, array, object, Fields, end, field, Raw, RawMap, to_map, is_null,
  is_object,
}

-- Simple folding, as far as it can lead to a letter of ASCII: U+017F folds to s, U+212A to k.
fold : ℕ → ℕ
fold c =
    if leb b'A' c && leb c b'Z'
    then c + 32
    else if c == 0x17f
    then b's'
    else if c == 0x212a
    then b'k'
    else c

-- Whether a key of an object is taken for the field of this name.
unfoldable pub is_field : String → String → Bool
unfolding fold
is_field key name = text_eq (map fold (codes key)) (map fold (codes name))

unfoldable pub has_null : RawMap → Bool
has_null [] = false
has_null ((k, raw) ∷ m) = is_null raw.value || has_null m

-- `Decode` with `DisallowUnknownFields`: `set` puts a value into the field that a key names.
pub decode_fields : {A : Type 0} → (String → Json → A → Option A) → Fields → A → Option A
decode_fields set end a = some a
decode_fields set (field k n v rest) a = elim (set k v a) [
  | none ↦ none
  | some a' ↦ decode_fields set rest a'
]

-- `decodeStrictArguments`; `none` is its error.
unfoldable pub decode_strict : {A : Type 0} → (String → Json → A → Option A) → A → Json → Option A
unfolding has_null decode_fields to_map is_null
decode_strict set a (object fs) = if has_null (to_map fs) then none else decode_fields set fs a
decode_strict set a _ = none

-- A value that is read into a string: null leaves it as it is.
unfoldable pub set_string : String → Json → Option String
set_string old (string s) = some s
set_string old null = some old
set_string old _ = none

set_bool : Bool → Json → Option Bool
set_bool old (bool b) = some b
set_bool old null = some old
set_bool old _ = none

-- Into a pointer: null makes it nil.
set_integer : Json → Option (Option ℤ)
set_integer (number n) = elim n.integer [ none ↦ none | some i ↦ some (some i) ]
set_integer null = some none
set_integer _ = none

set_optional : Json → Option (Option String)
set_optional (string s) = some (some s)
set_optional null = some none
set_optional _ = none

-- create_directory and get_path_info
pub record PathArguments : Type 0 where
  pub path : String

pub record ListArguments : Type 0 where
  pub path : Option String

pub record ReadArguments : Type 0 where
  pub path : String
  pub max_bytes : Option ℤ

pub record WriteArguments : Type 0 where
  pub path : String
  pub content : String
  pub overwrite : Bool

pub record DeleteArguments : Type 0 where
  pub path : String
  pub recursive : Bool

-- copy_path and move_path
pub record TransferArguments : Type 0 where
  pub source : String
  pub target : String
  pub overwrite : Bool

unfoldable pub set_path : String → Json → PathArguments → Option PathArguments
unfolding set_string
set_path key v a =
    if is_field key "path"
    then Option.map (λ p. record { path = p }) (set_string a.path v)
    else none

unfoldable pub set_list : String → Json → ListArguments → Option ListArguments
unfolding set_optional
set_list key v a =
    if is_field key "path" then Option.map (λ p. record { path = p }) (set_optional v) else none

unfoldable pub set_read : String → Json → ReadArguments → Option ReadArguments
unfolding set_string set_integer
set_read key v a =
    if is_field key "path"
    then Option.map (λ p. record a { path = p }) (set_string a.path v)
    else if is_field key "maxBytes"
    then Option.map (λ n. record a { max_bytes = n }) (set_integer v)
    else none

unfoldable pub set_write : String → Json → WriteArguments → Option WriteArguments
unfolding set_string set_bool
set_write key v a =
    if is_field key "path"
    then Option.map (λ p. record a { path = p }) (set_string a.path v)
    else if is_field key "content"
    then Option.map (λ c. record a { content = c }) (set_string a.content v)
    else if is_field key "overwrite"
    then Option.map (λ b. record a { overwrite = b }) (set_bool a.overwrite v)
    else none

unfoldable pub set_delete : String → Json → DeleteArguments → Option DeleteArguments
unfolding set_string set_bool
set_delete key v a =
    if is_field key "path"
    then Option.map (λ p. record a { path = p }) (set_string a.path v)
    else if is_field key "recursive"
    then Option.map (λ b. record a { recursive = b }) (set_bool a.recursive v)
    else none

unfoldable pub set_transfer : String → Json → TransferArguments → Option TransferArguments
unfolding set_string set_bool
set_transfer key v a =
    if is_field key "source"
    then Option.map (λ p. record a { source = p }) (set_string a.source v)
    else if is_field key "target"
    then Option.map (λ p. record a { target = p }) (set_string a.target v)
    else if is_field key "overwrite"
    then Option.map (λ b. record a { overwrite = b }) (set_bool a.overwrite v)
    else none

-- Arguments that are left out.
abbrev pub no_path : PathArguments
no_path = record { path = "" }

abbrev pub no_list : ListArguments
no_list = record { path = none }

abbrev pub no_read : ReadArguments
no_read = record { path = ""; max_bytes = none }

abbrev pub no_write : WriteArguments
no_write = record { path = ""; content = ""; overwrite = false }

abbrev pub no_delete : DeleteArguments
no_delete = record { path = ""; recursive = false }

abbrev pub no_transfer : TransferArguments
no_transfer = record { source = ""; target = ""; overwrite = false }

unfoldable pub is_non_blank : String → Bool
is_non_blank value = not (is_blank (codes value))

-- `isMissingNullOrObject`
unfoldable pub is_missing_null_or_object : Option Raw → Bool
is_missing_null_or_object none = true
is_missing_null_or_object (some raw) = is_null raw.value || is_object raw.value
