-- ===== src/Mcp/Server/Preservation.antt =====
-- Run of internal/mcp/server: what the handlers keep true of their world holds after any input.
use flashgate_mcp.Base.{
  ℕ, zero, suc, ◌≡◌, refl, sym, subst, Bool, true, false, Option, List, String, length,
  if◌then◌else◌,
}
use flashgate_mcp.Base.Result.{Result, ok, err}
use flashgate_mcp.Json.{Json}
use flashgate_mcp.Protocol.{Response, RpcError, ErrorCode, internal_error}
use flashgate_mcp.Mcp.Registry.Every.{Every}
use flashgate_mcp.Mcp.Transport.{
  Transport, TransportError, end_of_input, message_too_large, response_too_large, write_failed,
  read_message, write_message,
}
use flashgate_mcp.Mcp.Validation.{
  ValidatedRequest, RequestValidationError, validate_request_message, or_null,
}
use flashgate_mcp.Mcp.Revision.{Request, inspect}
use flashgate_mcp.Mcp.Router.{Router}
use flashgate_mcp.Mcp.Router.Preservation.{Preserves, dispatch_revision-preserves}
use flashgate_mcp.Mcp.Server.{
  Exit, cancelled, Server, handle_inspected, handle_request, write_error, write_result,
  write_response, answer_validated, answer, answer_read, round, after_round, run_loop, run,
}

module _ {W : Type 0} (I : W → Type 0) (router : Router W)
    (hr : Every (Preserves I) router.handlers) (decode : List ℕ → Option Json)
    (encode : Response → List ℕ) where
  handle_inspected-preserves :
      (id : Json) (method : String) (w : W) (r : Result RpcError Request)
      → I w
      → I (handle_inspected router decode encode id method w r).1
  unfolding handle_inspected
  handle_inspected-preserves id method w (err e) h = h
  handle_inspected-preserves id method w (ok request) h =
      dispatch_revision-preserves I router hr request method w h

  write_error-world :
      (s : Server W) (id : Json) (code : ErrorCode) (message : String)
      → (write_error router decode encode s id code message).1.world ≡ s.world
  unfolding write_error
  write_error-world s id code message = refl

  write_result-world :
      (s : Server W) (id : Json) (r : Result TransportError (Unit {0})) (t : Transport)
      → (write_result router decode encode s id (r, t)).1.world ≡ s.world
  unfolding write_result
  write_result-world s id (ok u) t = refl
  write_result-world s id (err end_of_input) t = refl
  write_result-world s id (err message_too_large) t = refl
  write_result-world s id (err response_too_large) t =
      write_error-world s id internal_error "internal error"
  write_result-world s id (err write_failed) t = refl

  write_response-preserves :
      (s : Server W) (id : Json) (r : Response)
      → I s.world
      → I (write_response router decode encode s id r).1.world
  unfolding write_response
  write_response-preserves s id r h =
      let (x, t) = write_message s.transport (encode r) in
      subst I (sym (write_result-world s id x t)) h

  notification-preserves :
      (b : Bool) (s : Server W) (t : Result TransportError (Unit {0}) × Server W)
      → I s.world
      → I t.1.world
      → I (if b then (ok tt, s) else t).1.world
  notification-preserves true s t h k = h
  notification-preserves false s t h k = k

  answer_validated-preserves :
      (s : Server W) (r : Result RequestValidationError ValidatedRequest)
      → I s.world
      → I (answer_validated router decode encode s r).1.world
  unfolding answer_validated write_error handle_request
  answer_validated-preserves s (err e) h = h
  answer_validated-preserves s (ok request) h =
      let (response, w) = handle_request router decode encode request s.world in
      let kept =
        handle_inspected-preserves (or_null request.id) request.method s.world
          (inspect request.params) h in
      notification-preserves request.notification s _ h
        (write_response-preserves (record s { world = w }) (or_null request.id) response kept)

  answer_read-preserves :
      (s : Server W) (r : Result TransportError (List ℕ))
      → I s.world
      → I (answer_read router decode encode s r).1.world
  unfolding answer_read answer write_error
  answer_read-preserves s (ok line) h =
      answer_validated-preserves s (validate_request_message (decode line) s.max_argument_bytes) h
  answer_read-preserves s (err end_of_input) h = h
  answer_read-preserves s (err message_too_large) h = h
  answer_read-preserves s (err response_too_large) h = h
  answer_read-preserves s (err write_failed) h = h

  round-preserves : (s : Server W) → I s.world → I (round router decode encode s).1.world
  unfolding round
  round-preserves s h =
      let (r, t) = read_message s.transport in
      answer_read-preserves (record s { transport = t }) r h

  after_round-preserves :
      (r : Result TransportError (Unit {0})) (s : Server W) (more : Exit × Server W)
      → I s.world
      → I more.1.world
      → I (after_round router decode encode r s more).1.world
  unfolding after_round
  after_round-preserves (err e) s more h k = h
  after_round-preserves (ok u) s more h k = k

  cancelled-preserves :
      (b : Bool) (s : Server W) (t : Exit × Server W)
      → I s.world
      → I t.1.world
      → I (if b then (cancelled, s) else t).1.world
  cancelled-preserves true s t h k = h
  cancelled-preserves false s t h k = k

  run_loop-preserves :
      (is_cancelled : ℕ → Bool) (fuel n : ℕ) (s : Server W)
      → I s.world
      → I (run_loop router decode encode is_cancelled fuel n s).1.world
  unfolding run_loop
  run_loop-preserves is_cancelled zero n s h = h
  run_loop-preserves is_cancelled (suc fuel) n s h =
      let kept = round-preserves s h in
      cancelled-preserves (is_cancelled n) s _ h (
        after_round-preserves (round router decode encode s).0 (round router decode encode s).1 _
          kept (run_loop-preserves is_cancelled fuel (suc n) (round router decode encode s).1 kept))

  -- C
  pub run-preserves :
      (is_cancelled : ℕ → Bool) (s : Server W)
      → I s.world
      → I (run router decode encode is_cancelled s).1.world
  unfolding run
  run-preserves is_cancelled s h =
      run_loop-preserves is_cancelled (suc (length s.transport.input)) 0 s h
