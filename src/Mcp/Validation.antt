-- ===== src/Mcp/Validation.antt =====
-- internal/mcp/server/request_validation.go: which messages reach a handler.
pub mod Laws
mod Tests
use flashgate_mcp.Base.{
  ℕ, zero, suc, Bool, true, false, not, ◌&&◌, ◌||◌, Option, none, some, List, [], ◌∷◌, ◌==◌, ltb,
  if◌then◌else◌, String, str_eq, codes, is_blank,
}
use flashgate_mcp.Base.Result.{Result, ok, err, ◌>>=◌}
use flashgate_mcp.Json.{
  Json, null, string, number, object, end, Raw, RawMap, get, put, from_map, as_map, as_string,
  is_object, is_null,
}
use flashgate_mcp.Protocol.{
  ErrorCode, parse_error, invalid_request, invalid_params, jsonrpc_version,
}

pub record ValidatedRequest : Type 0 where
  pub id : Option Json
  pub method : String
  pub params : Option Raw
  pub notification : Bool

pub record RequestValidationError : Type 0 where
  pub id : Json
  pub code : ErrorCode
  pub message : String

abbrev pub Validated : Type 0 → Type 0
Validated A = Result RequestValidationError A

-- `newRequestValidationError(id, …)` for the codes that are used with these messages
abbrev pub refuse : {A : Type 0} → Json → ErrorCode → String → Validated A
refuse id code message = err (record { id = id; code = code; message = message })

abbrev bad_params : {A : Type 0} → Json → Validated A
bad_params id = refuse id invalid_params "invalid params"

abbrev bad_request : {A : Type 0} → Json → Validated A
bad_request id = refuse id invalid_request "invalid request"

-- `stringField`
string_field : RawMap → String → Option String
string_field fields key = elim (get fields key) [ none ↦ none | some raw ↦ as_string raw.value ]

unfoldable pub is_valid_id : Json → Bool
is_valid_id null = true
is_valid_id (string s) = true
is_valid_id (number n) = n.finite
is_valid_id _ = false

-- `requestID`: no id, a valid one, or an error.
request_id : RawMap → Option (Option Json)
unfolding is_valid_id
request_id fields = elim (get fields "id") [
  | none ↦ some none
  | some raw ↦ if is_valid_id raw.value then some (some raw.value) else none
]

-- null where there is no id
abbrev pub or_null : Option Json → Json
or_null none = null
or_null (some id) = id

request_id_or_null : RawMap → Json
unfolding request_id
request_id_or_null fields = elim (request_id fields) [ none ↦ null | some id ↦ or_null id ]

-- A limit of 0 is none.
unfoldable pub exceeds_limit : Raw → ℕ → Bool
exceeds_limit raw limit = ltb 0 limit && ltb limit raw.size

-- Params without arguments get an empty object.
with_arguments : RawMap → Raw
with_arguments fields = record {
  size = 0;
  value = object (from_map (put fields "arguments" (record { size = 2; value = object end })));
}

-- The arguments of a call: left out, null, or an object within the limit.
check_arguments : Json → ℕ → Raw → RawMap → Validated (Option Raw)
unfolding with_arguments
check_arguments id limit params fields = elim (get fields "arguments") [
  | none ↦ ok (some (with_arguments fields))
  | some arguments ↦
      if is_null arguments.value
      then ok (some (with_arguments fields))
      else if not (is_object arguments.value)
      then bad_params id
      else if exceeds_limit arguments limit
      then bad_params id
      else ok (some params)
]

-- A name that is left out or blank is refused.
unfoldable pub named : Option String → Bool
named none = false
named (some s) = not (is_blank (codes s))

validate_tools_call_fields : Json → ℕ → Raw → Option RawMap → Validated (Option Raw)
unfolding named check_arguments
validate_tools_call_fields id limit params none = bad_params id
validate_tools_call_fields id limit params (some fields) =
    if named (string_field fields "name")
    then check_arguments id limit params fields
    else bad_params id

validate_tools_call_params : Json → ℕ → Option Raw → Validated (Option Raw)
unfolding validate_tools_call_fields
validate_tools_call_params id limit none = bad_params id
validate_tools_call_params id limit (some params) =
    if not (is_object params.value)
    then bad_params id
    else if exceeds_limit params limit
    then bad_params id
    else validate_tools_call_fields id limit params (as_map params.value)

given : Option String → Bool
given none = false
given (some s) = not (str_eq s "")

validate_initialize_fields : Json → Raw → Option RawMap → Validated (Option Raw)
unfolding given
validate_initialize_fields id params none = bad_params id
validate_initialize_fields id params (some fields) =
    if given (string_field fields "protocolVersion") then ok (some params) else bad_params id

validate_initialize_params : Json → Option Raw → Validated (Option Raw)
unfolding validate_initialize_fields
validate_initialize_params id none = bad_params id
validate_initialize_params id (some params) =
    if not (is_object params.value)
    then bad_params id
    else validate_initialize_fields id params (as_map params.value)

validate_tools_list_params : Json → Option Raw → Validated (Option Raw)
validate_tools_list_params id none = ok none
validate_tools_list_params id (some params) =
    if is_null params.value || is_object params.value then ok (some params) else bad_params id

pub validate_method_params : Json → String → Option Raw → ℕ → Validated (Option Raw)
unfolding validate_initialize_params validate_tools_list_params validate_tools_call_params
validate_method_params id method params limit =
    if str_eq method "initialize"
    then validate_initialize_params id params
    else if str_eq method "tools/list"
    then validate_tools_list_params id params
    else if str_eq method "tools/call"
    then validate_tools_call_params id limit params
    else ok params

-- From the method on; the id is known to be valid.
validate_method : RawMap → Option Json → ℕ → Option String → Validated ValidatedRequest
unfolding named
validate_method fields id limit none = bad_request (or_null id)
validate_method fields id limit (some method) =
    if not (named (some method)) then bad_request (or_null id) else elim id [
      | none ↦
          ok (record {
            id = none;
            method = method;
            params = get fields "params";
            notification = true;
          })
      | some i ↦ do
        params ← validate_method_params i method (get fields "params") limit
        ok (record { id = some i; method = method; params = params; notification = false })
    ]

is_version : Option String → Bool
is_version none = false
is_version (some v) = str_eq v jsonrpc_version

validate_fields : RawMap → ℕ → Validated ValidatedRequest
unfolding is_version request_id_or_null string_field
validate_fields fields limit =
    if not (is_version (string_field fields "jsonrpc"))
    then bad_request (request_id_or_null fields)
    else elim (request_id fields) [
      | none ↦ bad_request null
      | some id ↦ validate_method fields id limit (string_field fields "method")
    ]

validate_object : ℕ → Option RawMap → Validated ValidatedRequest
unfolding validate_fields
validate_object limit none = bad_request null
validate_object limit (some fields) = validate_fields fields limit

-- `validateRequestMessageWithLimits`; `none` is a text that is not JSON.
unfoldable pub validate_request_message : Option Json → ℕ → Validated ValidatedRequest
unfolding validate_object validate_method request_id
validate_request_message none limit = refuse null parse_error "parse error"
validate_request_message (some message) limit =
    if not (is_object message) then bad_request null else validate_object limit (as_map message)
