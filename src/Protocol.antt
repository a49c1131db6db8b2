-- ===== src/Protocol.antt =====
-- internal/protocol: versions, error codes, errors and responses.
use flashgate_mcp.Base.{ℕ, Option, String}
use flashgate_mcp.Json.{Json}

abbrev pub jsonrpc_version : String
jsonrpc_version = "2.0"

abbrev pub protocol_version : String
protocol_version = "2025-11-25"

-- The codes of protocol/errors.go, each of which is a negative number.
pub data ErrorCode : Type 0 where
  parse_error invalid_request method_not_found invalid_params internal_error : ErrorCode
  unsupported_protocol_version : ErrorCode

-- The number of a code, without its minus sign.
abbrev pub code_number : ErrorCode → ℕ
code_number parse_error = 32700
code_number invalid_request = 32600
code_number method_not_found = 32601
code_number invalid_params = 32602
code_number internal_error = 32603
code_number unsupported_protocol_version = 32022

pub record RpcError : Type 0 where
  pub code : ErrorCode
  pub message : String
  pub detail : Option Json

-- `Response`: a result or an error that is nil is left out.
pub record Response : Type 0 where
  pub jsonrpc : String
  pub id : Json
  pub result : Option Json
  pub error : Option RpcError
