-- ===== src/Mcp/Tools/Calling.antt =====
-- tools_call.go of internal/mcp/tools, and the envelopes of internal/protocol/tools.go.
pub mod Asking
pub mod Answers
pub mod Replying
use flashgate_mcp.Base.{
  Bool, true, false, not, ◌||◌, Option, none, some, String, codes, is_blank, if◌then◌else◌,
}
use flashgate_mcp.Base.Result.{Result, ok, err}
use flashgate_mcp.Os.{Os, ret, and_then}
use flashgate_mcp.Json.{
  Json, bool, string, array, object, Items, nil, cons, Fields, end, field, Raw, RawMap, Encoding,
  get, to_map, as_string, is_object, is_null,
}
use flashgate_mcp.Protocol.{RpcError, internal_error}
use flashgate_mcp.Mcp.Registry.{Registry}
use flashgate_mcp.Mcp.Registry
use flashgate_mcp.Mcp.Router.{Outcome, result, error, invalid_params_error}
use flashgate_mcp.Mcp.Tools.Outcome.{
  Executed, done, refused, broken, Category, category_text, message_text,
}
use flashgate_mcp.Mcp.Tools.Arguments.{is_non_blank}
use flashgate_mcp.Mcp.Tools.Tool.{Tool}

pub record CallParams : Type 0 where
  pub name : String
  pub arguments : Json

-- `internalToolResultError`
abbrev pub internal_tool_result_error : RpcError
internal_tool_result_error = record {
  code = internal_error;
  message = "internal error";
  detail = none;
}

-- `stringField`: the text of a field, if it is not blank.
string_field : RawMap → String → Option String
string_field fields key = elim (get fields key) [
  | none ↦ none
  | some raw ↦ elim (as_string raw.value) [
    | none ↦ none
    | some value ↦ if is_blank (codes value) then none else some value
  ]
]

-- Arguments that are left out are an empty object.
call_arguments : Option Raw → Option Json
call_arguments none = some (object end)
call_arguments (some raw) =
    if is_null raw.value
    then some (object end)
    else if not (is_object raw.value)
    then none
    else some raw.value

with_name : String → Option Json → Result RpcError CallParams
with_name name none = err invalid_params_error
with_name name (some arguments) = ok (record { name = name; arguments = arguments })

call_fields : RawMap → Option String → Result RpcError CallParams
unfolding with_name call_arguments
call_fields fields none = err invalid_params_error
call_fields fields (some name) = with_name name (call_arguments (get fields "arguments"))

call_object : Json → Result RpcError CallParams
unfolding call_fields string_field
call_object (object fs) = call_fields (to_map fs) (string_field (to_map fs) "name")
call_object _ = err invalid_params_error

-- `validateCallParams`
unfoldable pub validate_call_params : Option Raw → Result RpcError CallParams
unfolding call_object
validate_call_params none = err invalid_params_error
validate_call_params (some raw) = call_object raw.value

-- `NewTextContent`, as the only content.
abbrev pub text_content : String → Json
text_content text =
    array (cons (object (field "type" 0 (string "text") (field "text" 0 (string text) end))) nil)

-- `NewCallToolResult`, of the text of a value; `none` is its error.
new_call_tool_result : Encoding → Json → Option Json
new_call_tool_result e v =
    if not (is_object v)
    then none
    else some (
        object (field "content" 0 (text_content (e.marshal v)) (field "structuredContent" 0 v end)))

-- The payload of an error.
abbrev pub error_payload : String → String → Json
error_payload category message =
    object (field "category" 0 (string category) (field "message" 0 (string message) end))

-- `NewCallToolErrorResult`
new_call_tool_error_result : Encoding → String → String → Option Json
new_call_tool_error_result e category message =
    if not (is_non_blank category) || not (is_non_blank message)
    then none
    else some (
        object (
          field "content" 0 (text_content (e.marshal (error_payload category message)))
            (field "isError" 0 (bool true) end)))

or_internal : Option Json → Outcome
or_internal none = error internal_tool_result_error
or_internal (some v) = result v

-- `wrapSuccessfulToolResult`, and what `Handle` makes of an error.
unfoldable pub call_outcome : Encoding → Executed → Outcome
unfolding or_internal new_call_tool_result new_call_tool_error_result
call_outcome e (done v) = or_internal (new_call_tool_result e v)
call_outcome e (refused c) =
    or_internal (new_call_tool_error_result e (category_text c) (message_text c))
call_outcome e broken = error internal_tool_result_error

call_tool : Encoding → Json → Option Tool → Os Outcome
unfolding call_outcome
call_tool e arguments none = ret (error invalid_params_error)
call_tool e arguments (some tool) = and_then (tool.execute arguments) (λ x. ret (call_outcome e x))

call_validated : Encoding → Registry Tool → Result RpcError CallParams → Os Outcome
unfolding call_tool
call_validated e registry (err x) = ret (error x)
call_validated e registry (ok params) =
    call_tool e params.arguments (Registry.get registry params.name)

-- `CallHandler.Handle`
unfoldable pub handle_call : Encoding → Registry Tool → Option Raw → Os Outcome
unfolding call_validated
handle_call e registry params = call_validated e registry (validate_call_params params)
