-- ===== src/Mcp/Validation/Tests.antt =====
-- Examples for the validation.
use flashgate_mcp.Base.{
  ℕ, suc, ◌≡◌, ◌≢◌, ◌⊎◌, inl, inr, refl, true, false, Bool, Option, none, some, List, [], ◌∷◌, ◌++◌,
  String, codes, arith, if◌then◌else◌, str_eq, length,
}
use flashgate_mcp.Json.{Json, null, string, object, field, end, Raw, number}
use flashgate_mcp.Mcp.Validation.{ValidatedRequest, validate_request_message, or_null}
use flashgate_mcp.Mcp.Validation.Laws.{IsProper, validate-IsProper}

-- {"jsonrpc":"2.0","id":"1","method":"tools/call","params":{"name":"t"}}
abbrev params : Json
params = object (field "name" 3 (string "t") end)

abbrev message : Json
message = object (
    field "jsonrpc" 5 (string "2.0") (
      field "id" 3 (string "1")
        (field "method" 12 (string "tools/call") (field "params" 12 params end))))

abbrev request : ValidatedRequest
request = record {
  id = some (string "1");
  method = "tools/call";
  params = some (record {
    size = 0;
    value = object (field "name" 3 (string "t") (field "arguments" 2 (object end) end));
  });
  notification = false;
}

validate-IsProper_example : IsProper request
unfolding validate_request_message flashgate_mcp.Json.is_object flashgate_mcp.Json.as_map
    flashgate_mcp.Json.get flashgate_mcp.Json.as_string flashgate_mcp.Base.is_blank
    flashgate_mcp.Mcp.Validation.validate_method_params flashgate_mcp.Mcp.Validation.exceeds_limit
    flashgate_mcp.Json.from_map
validate-IsProper_example = validate-IsProper (some message) 100 request refl
