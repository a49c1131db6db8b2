-- ===== src/Mcptest/Tests.antt =====
-- Examples for the results of tool calls.
use flashgate_mcp.Base.{◌≡◌, refl, Bool, true, Option, some, String, codes}
use flashgate_mcp.Json.{Json, object, end, Encoding}
use flashgate_mcp.Mcp.Tools.Outcome.{done}
use flashgate_mcp.Mcp.Tools.Calling.{call_outcome}
use flashgate_mcp.Mcp.Tools.Calling.Answers.{success_envelope}
use flashgate_mcp.Mcptest.{decode_call_tool_result}
use flashgate_mcp.Mcptest.Envelopes.{told, decode-call_outcome}

abbrev encoding : Encoding
encoding = record { bytes_of = codes; text_of = λ t. "a"; marshal = λ v. "{}" }

abbrev value : Json
value = object end

abbrev parse : String → Option Json
parse s = some value

abbrev deep_equal : Json → Json → Bool
deep_equal v w = true

decode-call_outcome_example :
    decode_call_tool_result parse deep_equal (success_envelope encoding value)
    ≡ some (told (done value) value)
unfolding call_outcome flashgate_mcp.Json.is_object
decode-call_outcome_example =
    decode-call_outcome encoding parse deep_equal (done value) (success_envelope encoding value)
      value refl refl refl refl
