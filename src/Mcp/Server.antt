-- ===== src/Mcp/Server.antt =====
-- internal/mcp/server/server.go: the request loop. encoding/json stands behind two parameters:
-- `decode` finds the value in the bytes of a line, if it is JSON, and `encode` writes a response.
pub mod Replies
pub mod Progress
pub mod Preservation
pub mod Conversation
mod Tests
use flashgate_mcp.Base.{
  ℕ, zero, suc, ◌+◌, Bool, true, false, Option, none, some, List, [], ◌∷◌, length, if◌then◌else◌,
  String,
}
use flashgate_mcp.Base.Result.{Result, ok, err}
use flashgate_mcp.Json.{Json, null, Raw}
use flashgate_mcp.Protocol.{
  ErrorCode, RpcError, Response, internal_error, invalid_request, jsonrpc_version,
}
use flashgate_mcp.Mcp.Transport.{
  Transport, TransportError, end_of_input, message_too_large, response_too_large, write_failed,
  read_message, write_message, write_message_unbounded, new_with_limits,
}
use flashgate_mcp.Mcp.Validation.{
  ValidatedRequest, RequestValidationError, validate_request_message, or_null,
}
use flashgate_mcp.Mcp.Revision.{Request, inspect}
use flashgate_mcp.Mcp.Router.{Router, Outcome, result, error, nothing, panic, dispatch_revision}

-- Why the loop ends: with the input, by cancellation, or with an error of the transport.
pub data Exit : Type 0 where
  finished cancelled out_of_fuel : Exit
  failed : TransportError → Exit

abbrev pub error_response : Json → RpcError → Response
error_response id e = record { jsonrpc = jsonrpc_version; id = id; result = none; error = some e }

abbrev pub result_response : Json → Json → Response
result_response id v = record { jsonrpc = jsonrpc_version; id = id; result = some v; error = none }

-- A result that is nil is left out.
abbrev pub empty_response : Json → Response
empty_response id = record { jsonrpc = jsonrpc_version; id = id; result = none; error = none }

abbrev pub rpc_error : ErrorCode → String → RpcError
rpc_error code message = record { code = code; message = message; detail = none }

response_of : Json → Outcome → Response
response_of id (result v) = result_response id v
response_of id nothing = empty_response id
response_of id (error e) = error_response id e
response_of id panic = error_response id (rpc_error internal_error "internal error")

pub record Server (W : Type 0) : Type 0 where
  pub transport : Transport
  pub max_argument_bytes : ℕ
  pub world : W

-- `Options`, without the diagnostics.
pub record Options : Type 0 where
  pub max_message_bytes : ℕ
  pub max_argument_bytes : ℕ
  pub max_response_bytes : ℕ

-- `NewWithOptions`, for an input and an output that may fail.
unfoldable pub new_with_options : {W : Type 0} → List ℕ → Bool → Options → W → Server W
unfolding new_with_limits
new_with_options input broken options w = record {
  transport = new_with_limits input broken options.max_message_bytes options.max_response_bytes;
  max_argument_bytes = options.max_argument_bytes;
  world = w;
}

module _ {W : Type 0} (router : Router W) (decode : List ℕ → Option Json)
    (encode : Response → List ℕ) where
  -- Behind `revision.Inspect`.
  handle_inspected : Json → String → W → Result RpcError Request → Response × W
  unfolding response_of
  handle_inspected id method w (err e) = (error_response id e, w)
  handle_inspected id method w (ok request) =
      let (outcome, w') = dispatch_revision router request method w in (response_of id outcome, w')

  pub handle_request : ValidatedRequest → W → Response × W
  unfolding handle_inspected
  handle_request request w =
      handle_inspected (or_null request.id) request.method w (inspect request.params)

  write_error : Server W → Json → ErrorCode → String → Result TransportError (Unit {0}) × Server W
  write_error s id code message =
      let (r, t) =
        write_message_unbounded s.transport (encode (error_response id (rpc_error code message))) in
      (r, record s { transport = t })

  -- A response that is too large is replaced by an error.
  write_result :
      Server W
      → Json
      → Result TransportError (Unit {0}) × Transport
      → Result TransportError (Unit {0}) × Server W
  unfolding write_error
  write_result s id (err response_too_large, t) = write_error s id internal_error "internal error"
  write_result s id (err e, t) = (err e, record s { transport = t })
  write_result s id (ok u, t) = (ok u, record s { transport = t })

  write_response : Server W → Json → Response → Result TransportError (Unit {0}) × Server W
  unfolding write_result
  write_response s id response = write_result s id (write_message s.transport (encode response))

  -- One message: nothing is written for a notification, and one line for any other.
  answer_validated :
      Server W
      → Result RequestValidationError ValidatedRequest
      → Result TransportError (Unit {0}) × Server W
  unfolding write_error write_response handle_request
  answer_validated s (err e) = write_error s e.id e.code e.message
  answer_validated s (ok request) =
      let (response, w) = handle_request request s.world in
      if request.notification
      then (ok tt, s)
      else write_response (record s { world = w }) (or_null request.id) response

  pub answer : Server W → List ℕ → Result TransportError (Unit {0}) × Server W
  unfolding answer_validated
  answer s line = answer_validated s (validate_request_message (decode line) s.max_argument_bytes)

  -- What follows a read.
  answer_read :
      Server W → Result TransportError (List ℕ) → Result TransportError (Unit {0}) × Server W
  unfolding answer write_error
  answer_read s (ok line) = answer s line
  answer_read s (err message_too_large) = write_error s null invalid_request "invalid request"
  answer_read s (err e) = (err e, s)

  -- One round of `Run`.
  round : Server W → Result TransportError (Unit {0}) × Server W
  unfolding answer_read
  round s = let (r, t) = read_message s.transport in answer_read (record s { transport = t }) r

  -- An end of the input is no error.
  exit_of : TransportError → Exit
  exit_of end_of_input = finished
  exit_of e = failed e

  -- An error ends the loop; `more` are the rounds that follow.
  after_round : Result TransportError (Unit {0}) → Server W → Exit × Server W → Exit × Server W
  unfolding exit_of
  after_round (err e) s more = (exit_of e, s)
  after_round (ok u) s more = more

  -- The loop, with fuel for the rounds; `is_cancelled` tells of each round whether the context
  -- has ended before it.
  run_loop : (ℕ → Bool) → ℕ → ℕ → Server W → Exit × Server W
  unfolding round after_round
  run_loop is_cancelled zero n s = (out_of_fuel, s)
  run_loop is_cancelled (suc fuel) n s =
      let (r, s') = round s in
      let more = run_loop is_cancelled fuel (suc n) s' in
      if is_cancelled n then (cancelled, s) else after_round r s' more

  pub run : (ℕ → Bool) → Server W → Exit × Server W
  unfolding run_loop
  run is_cancelled s = run_loop is_cancelled (suc (length s.transport.input)) 0 s
