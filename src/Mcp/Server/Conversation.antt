-- ===== src/Mcp/Server/Conversation.antt =====
-- Run of internal/mcp/server, seen as a conversation: from messages to payloads, with no bytes, no
-- limits of the reader and no transport.
pub mod Refinement
pub mod Answers
use flashgate_mcp.Base.{
  ℕ, zero, suc, ◌+◌, ◌≤◌, ◌<◌, ◌≡◌, refl, sym, ap, ◌∙◌, Bool, true, false, ◌&&◌, Option, none, some,
  List, [], ◌∷◌, ◌++◌, append_assoc, append-nil, length, length-append, ltb, All, arith,
  if◌then◌else◌, subst,
}
use flashgate_mcp.Base.Result.{Result, ok, err}
use flashgate_mcp.Json.{Json}
use flashgate_mcp.Protocol.{Response, internal_error}
use flashgate_mcp.Mcp.Transport.{
  TransportError, read_message, read_line, write_message, write_message_unbounded, write_payload,
}
use flashgate_mcp.Mcp.Transport.Framing.{NoNewline, Fits, read_message-Fits}
use flashgate_mcp.Mcp.Validation.{
  ValidatedRequest, RequestValidationError, validate_request_message, or_null,
}
use flashgate_mcp.Mcp.Router.{Router}
use flashgate_mcp.Mcp.Server.{
  Server, Exit, finished, error_response, rpc_error, handle_request, write_error, write_result,
  write_response, answer_validated, answer, answer_read, round, after_round, exit_of, run_loop, run,
}

-- Messages, each with the end of its line.
unfoldable pub frame : List (List ℕ) → List ℕ
frame [] = []
frame (m ∷ ms) = m ++ b'\n' ∷ frame ms

module _ {W : Type 0} (router : Router W) (decode : List ℕ → Option Json)
    (encode : Response → List ℕ) (max_argument_bytes max_write_bytes : ℕ) where
  -- A response that is too long is replaced by an error.
  payload_of : Json → Response → List ℕ
  payload_of id r =
      if ltb 0 max_write_bytes && ltb max_write_bytes (length (encode r) + 1)
      then encode (error_response id (rpc_error internal_error "internal error"))
      else encode r

  -- The payload that a message is answered with, if it is answered.
  reply_validated : Result RequestValidationError ValidatedRequest → W → Option (List ℕ) × W
  unfolding payload_of
  reply_validated (err e) w = (some (encode (error_response e.id (rpc_error e.code e.message))), w)
  reply_validated (ok request) w =
      let (response, w') = handle_request router decode encode request w in
      if request.notification
      then (none, w)
      else (some (payload_of (or_null request.id) response), w')

  reply : List ℕ → W → Option (List ℕ) × W
  unfolding reply_validated
  reply m w =
      reply_validated (validate_request_message (decode (m ++ b'\n' ∷ [])) max_argument_bytes) w

  with_payload : Option (List ℕ) → List (List ℕ) → List (List ℕ)
  with_payload none ps = ps
  with_payload (some p) ps = p ∷ ps

  -- The payloads for a list of messages, in their order, and the world behind them.
  unfoldable pub converse : List (List ℕ) → W → List (List ℕ) × W
  unfolding reply with_payload
  converse [] w = ([], w)
  converse (m ∷ ms) w =
      let (p, w') = reply m w in let (ps, w'') = converse ms w' in (with_payload p ps, w'')
