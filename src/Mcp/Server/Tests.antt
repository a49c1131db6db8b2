-- ===== src/Mcp/Server/Tests.antt =====
-- Examples for the server.
use flashgate_mcp.Base.{
  ℕ, suc, ◌≢◌, ◌⊎◌, inr, arith, refl, true, false, Option, none, some, List, [], ◌∷◌, ◌++◌, codes,
}
use flashgate_mcp.Json.{Json, null, string, object, field, end}
use flashgate_mcp.Protocol.{Response}
use flashgate_mcp.Mcp.Transport.{
  Transport, TransportError, message_too_large, new_with_limits, read_message, write_message,
}
use flashgate_mcp.Mcp.Validation.{ValidatedRequest, validate_request_message}
use flashgate_mcp.Mcp.Router.{Router, Handler, result}
use flashgate_mcp.Mcp.Server.{Server, out_of_fuel, answer, run}
use flashgate_mcp.Mcp.Server.Replies.{Silent, Spoken, answer-lines}
use flashgate_mcp.Mcp.Server.Conversation.{frame, converse}
use flashgate_mcp.Mcp.Server.Conversation.Refinement.{Conversed, Readable, run-converse}
use flashgate_mcp.Mcp.Server.Progress.{run-ends}

-- A reader of the lines "hi" and "you".
abbrev reader : ℕ → Transport
reader limit = record {
  input = codes "hi" ++ b'\n' ∷ codes "you" ++ b'\n' ∷ [];
  output = [];
  broken = false;
  max_read_bytes = limit;
  max_write_bytes = 0;
}

-- A handler that counts its calls.
abbrev counting : Handler ℕ
counting p n = (result null, suc n)

abbrev router : Router ℕ
router = record {
  handlers = ("ping", counting) ∷ [];
  policy = record { legacy_enabled = true; stateless_enabled = false };
  name = "flashgate";
  version = "1";
}

abbrev request : ValidatedRequest
request = record {
  id = some (string "1");
  method = "tools/call";
  params = some (record {
    size = 0;
    value = object (field "name" 3 (string "t") (field "arguments" 2 (object end) end));
  });
  notification = false;
}

-- No line is JSON, and every response is written as "{}".
abbrev decode : List ℕ → Option Json
decode line = none

abbrev encode : Response → List ℕ
encode r = codes "{}"

abbrev server : Server ℕ
server = record { transport = reader 9; max_argument_bytes = 100; world = 0 }

run-ends_example : (run router decode encode (λ n. false) server).0 ≢ out_of_fuel
run-ends_example = run-ends router decode encode (λ n. false) server

answer-lines_example :
    Silent router decode encode server
      (validate_request_message none 100)
      (answer router decode encode server (codes "x")).1
    ⊎ Spoken router decode encode server
        (validate_request_message none 100)
        (answer router decode encode server (codes "x")).1
unfolding answer validate_request_message flashgate_mcp.Mcp.Transport.write_message_unbounded
answer-lines_example = answer-lines router decode encode server (codes "x") refl

abbrev messages : List (List ℕ)
messages = codes "hi" ∷ codes "you" ∷ []

messages-Readable : Readable router decode encode 9 messages
messages-Readable = (
  ((ground arith, (ground arith, tt)), inr (omega arith)),
  (((ground arith, (ground arith, (ground arith, tt))), inr (omega arith)), tt),
)

run-converse_example :
    (let c = converse router decode encode 100 0 messages 0 in
      Conversed router decode encode server c.0 c.1 (run router decode encode (λ n. false) server))
unfolding frame
run-converse_example =
    run-converse router decode encode (λ n. false) messages server (λ n. refl) refl refl
      messages-Readable
