-- ===== src/Mcp/Server/Progress.antt =====
-- Run of internal/mcp/server: the input that a round uses up.
use flashgate_mcp.Base.{
  ℕ, zero, suc, ◌<◌, ◌≡◌, ◌≢◌, refl, Bool, Option, List, length, arith, inl, inr, ◌⊎◌, String, sym,
  subst,
}
use flashgate_mcp.Base.Result.{Result, ok, err}
use flashgate_mcp.Json.{Json, null}
use flashgate_mcp.Protocol.{Response, ErrorCode, invalid_request}
use flashgate_mcp.Mcp.Transport.{
  Transport, TransportError, end_of_input, message_too_large, response_too_large, write_failed,
  read_message, write_message,
}
use flashgate_mcp.Mcp.Transport.Progress.{
  read_message-progress, write_message-input, write_message_unbounded-input,
}
use flashgate_mcp.Mcp.Router.{Router}
use flashgate_mcp.Mcp.Validation.{
  ValidatedRequest, RequestValidationError, validate_request_message, or_null,
}
use flashgate_mcp.Mcp.Server.{
  Server, Exit, out_of_fuel, handle_request, write_error, write_result, write_response,
  answer_validated, answer, answer_read, round, exit_of, run_loop, run, after_round,
}

module _ {W : Type 0} (router : Router W) (decode : List ℕ → Option Json)
    (encode : Response → List ℕ) where
  abbrev unread : Server W → List ℕ
  unread s = s.transport.input

  write_error-input :
      (s : Server W) (id : Json) (code : ErrorCode) (message : String)
      → unread (write_error router decode encode s id code message).1 ≡ unread s
  unfolding write_error
  write_error-input s id code message = write_message_unbounded-input s.transport _

  write_result-input :
      (s : Server W) (id : Json) (r : Result TransportError (Unit {0})) (t : Transport)
      → t.input ≡ unread s
      → unread (write_result router decode encode s id (r, t)).1 ≡ unread s
  unfolding write_result
  write_result-input s id (ok u) t h = h
  write_result-input s id (err response_too_large) t h = write_message_unbounded-input s.transport _
  write_result-input s id (err _) t h = h

  write_response-input :
      (s : Server W) (id : Json) (response : Response)
      → unread (write_response router decode encode s id response).1 ≡ unread s
  unfolding write_response
  write_response-input s id response =
      let written = write_message s.transport (encode response) in
      write_result-input s id written.0 written.1
        (write_message-input s.transport (encode response))

  answer_validated-input :
      (s : Server W) (r : Result RequestValidationError ValidatedRequest)
      → unread (answer_validated router decode encode s r).1 ≡ unread s
  unfolding answer_validated
  answer_validated-input s (err e) = write_error-input s e.id e.code e.message
  answer_validated-input s (ok request) =
      let (response, w) = handle_request router decode encode request s.world in
      let written = write_response-input (record s { world = w }) (or_null request.id) response in
      ground (arith, written)

  answer_read-input :
      (s : Server W) (r : Result TransportError (List ℕ))
      → unread (answer_read router decode encode s r).1 ≡ unread s
  unfolding answer_read answer
  answer_read-input s (ok line) =
      answer_validated-input s (validate_request_message (decode line) s.max_argument_bytes)
  answer_read-input s (err message_too_large) =
      write_error-input s null invalid_request "invalid request"
  answer_read-input s (err _) = refl

  answer_read-end :
      (s : Server W) (r : Result TransportError (List ℕ))
      → r ≡ err end_of_input
      → (answer_read router decode encode s r).0 ≡ err end_of_input
  unfolding answer_read
  answer_read-end s r e = rw e refl

  -- A round ends the loop or consumes input.
  round-progress :
      (s : Server W)
      → ((round router decode encode s).0 ≡ err end_of_input)
        ⊎ (length (unread (round router decode encode s).1) < length (unread s))
  unfolding round
  round-progress s =
      let read = read_message s.transport in
      let after : Server W = record s { transport = read.1 } in
      elim (read_message-progress s.transport) [
        | inl e ↦ inl (answer_read-end after read.0 e)
        | inr shorter ↦
            let same : unread (answer_read router decode encode after read.0).1 ≡ read.1.input =
              answer_read-input after read.0 in
            inr (subst (λ bs. length bs < length (unread s)) (sym same) shorter)
      ]

  after_round-ends :
      (r : Result TransportError (Unit {0})) (s : Server W) (more : Exit × Server W)
      → (r ≡ err end_of_input) ⊎ (more.0 ≢ out_of_fuel)
      → (after_round router decode encode r s more).0 ≢ out_of_fuel
  unfolding after_round exit_of
  after_round-ends (err end_of_input) s more h = λ e. ground arith
  after_round-ends (err message_too_large) s more h = λ e. ground arith
  after_round-ends (err response_too_large) s more h = λ e. ground arith
  after_round-ends (err write_failed) s more h = λ e. ground arith
  after_round-ends (ok u) s more (inl e) = absurd (ground arith)
  after_round-ends (ok u) s more (inr h) = h

  run_loop-ends :
      (is_cancelled : ℕ → Bool) (fuel n : ℕ) (s : Server W)
      → length (unread s) < fuel
      → (run_loop router decode encode is_cancelled fuel n s).0 ≢ out_of_fuel
  unfolding run_loop
  run_loop-ends is_cancelled zero n s h = absurd (omega arith)
  run_loop-ends is_cancelled (suc fuel) n s h =
      let r = round router decode encode s in
      let more = run_loop router decode encode is_cancelled fuel (suc n) r.1 in
      let ends : (after_round router decode encode r.0 r.1 more).0 ≢ out_of_fuel =
        after_round-ends r.0 r.1 more (elim (round-progress s) [
          | inl e ↦ inl e
          | inr shorter ↦ inr (run_loop-ends is_cancelled fuel (suc n) r.1 (omega arith))
        ]) in
      λ e. ground (arith, ends)

  -- Whatever the input is, and whatever the router, the decoder and the encoder do, the loop of
  -- Run ends within one round more than the input has bytes.
  pub run-ends :
      (is_cancelled : ℕ → Bool) (s : Server W)
      → (run router decode encode is_cancelled s).0 ≢ out_of_fuel
  unfolding run
  run-ends is_cancelled s = run_loop-ends is_cancelled (suc (length (unread s))) 0 s (omega arith)
