-- ===== src/Mcp/Initialize.antt =====
-- internal/mcp/initialize/handler.go
pub mod Answers
use flashgate_mcp.Base.{Option, none, some, String, str_eq, if◌then◌else◌}
use mathlib.Core.Option
use flashgate_mcp.Json.{Json, null, string, object, end, field, Raw}
use flashgate_mcp.Protocol.{RpcError, invalid_params, protocol_version}
use flashgate_mcp.Mcp.Router.{Outcome, result, error}
use flashgate_mcp.Mcp.Tools.Arguments.{is_field, decode_fields, set_string}

pub record Implementation : Type 0 where
  pub name : String
  pub version : String

-- `requestParams`, without the capabilities, which are kept as they are and read by nothing.
pub record RequestParams : Type 0 where
  pub protocol_version : String
  pub client_info : Implementation

no_params : RequestParams
no_params = record { protocol_version = ""; client_info = record { name = ""; version = "" } }

-- `Unmarshal` passes over a field that it does not know.
set_implementation : String → Json → Implementation → Option Implementation
set_implementation key v a =
    if is_field key "name"
    then Option.map (λ s. record a { name = s }) (set_string a.name v)
    else if is_field key "version"
    then Option.map (λ s. record a { version = s }) (set_string a.version v)
    else some a

read_implementation : Implementation → Json → Option Implementation
unfolding set_implementation
read_implementation a (object fs) = decode_fields set_implementation fs a
read_implementation a null = some a
read_implementation a _ = none

set_params : String → Json → RequestParams → Option RequestParams
unfolding read_implementation
set_params key v a =
    if is_field key "protocolVersion"
    then Option.map (λ s. record a { protocol_version = s }) (set_string a.protocol_version v)
    else if is_field key "clientInfo"
    then Option.map (λ i. record a { client_info = i }) (read_implementation a.client_info v)
    else some a

read_object : Json → Option RequestParams
unfolding set_params no_params
read_object (object fs) = decode_fields set_params fs no_params
read_object null = some no_params
read_object _ = none

-- `json.Unmarshal` into `requestParams`; no text at all is no JSON.
unfoldable pub read_params : Option Raw → Option RequestParams
unfolding read_object
read_params none = none
read_params (some raw) = read_object raw.value

abbrev pub refused_params : String → RpcError
refused_params message = record { code = invalid_params; message = message; detail = none }

-- `response`, for a server of this name and version.
abbrev pub initialize_result : String → String → Json
initialize_result name version = object (
    field "protocolVersion" 0 (string protocol_version) (
      field "capabilities" 0 (object (field "tools" 0 (object end) end)) (
        field "serverInfo" 0
          (object (field "name" 0 (string name) (field "version" 0 (string version) end))) end)))

handle_read : String → String → Option RequestParams → Outcome
handle_read name version none = error (refused_params "invalid initialize params")
handle_read name version (some params) =
    if str_eq params.protocol_version ""
    then error (refused_params "missing protocol version")
    else result (initialize_result name version)

-- `Handle`
unfoldable pub handle_initialize : String → String → Option Raw → Outcome
unfolding handle_read
handle_initialize name version params = handle_read name version (read_params params)
