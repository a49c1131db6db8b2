-- ===== src/Mcp/Server/Replies.antt =====
-- Run and handleRequest of internal/mcp/server: what is written for a message.
use flashgate_mcp.Base.{
  ℕ, ◌≡◌, refl, subst, Bool, true, false, Option, none, some, List, [], ◌∷◌, ◌++◌, String, ◌⊎◌, inl,
  inr, if◌then◌else◌,
}
use flashgate_mcp.Base.Result.{Result, ok, err}
use flashgate_mcp.Json.{Json}
use flashgate_mcp.Protocol.{RpcError, Response, ErrorCode, jsonrpc_version, internal_error}
use flashgate_mcp.Mcp.Transport.{TransportError, response_too_large, write_message}
use flashgate_mcp.Mcp.Transport.Framing.{write_message-output, write_message_unbounded-output}
use flashgate_mcp.Mcp.Validation.{
  ValidatedRequest, RequestValidationError, validate_request_message, or_null,
}
use flashgate_mcp.Mcp.Revision.{Request, inspect}
use flashgate_mcp.Mcp.Router.{Router, Outcome, result, error, nothing, panic, dispatch_revision}
use flashgate_mcp.Mcp.Router.Replying.{Replies, Replying, dispatch_revision-Replies}
use flashgate_mcp.Mcp.Registry.Every.{Every}
use flashgate_mcp.Mcp.Server.{
  Server, error_response, rpc_error, response_of, handle_inspected, handle_request, write_error,
  write_result, write_response, answer_validated, answer,
}

abbrev pub HasResult : Response → Type 0
HasResult r = (v : Json) × (r.result ≡ some v) × (r.error ≡ none)

abbrev pub HasError : Response → Type 0
HasError r = (e : RpcError) × (r.result ≡ none) × (r.error ≡ some e)

-- A response to the request of this id: it carries a result or an error, and not both.
pub record Answers (id : Json) (r : Response) : Type 0 where
  pub versioned : r.jsonrpc ≡ jsonrpc_version
  pub same_id : r.id ≡ id
  pub single : HasResult r ⊎ HasError r

response_of-Answers : (id : Json) (o : Outcome) → Replies o → Answers id (response_of id o)
unfolding response_of
response_of-Answers id nothing h = absurd h
response_of-Answers id (result v) h = record {
  versioned = refl;
  same_id = refl;
  single = inl (v, refl, refl);
}
response_of-Answers id (error e) h = record {
  versioned = refl;
  same_id = refl;
  single = inr (e, refl, refl);
}
response_of-Answers id panic h = record {
  versioned = refl;
  same_id = refl;
  single = inr (_, refl, refl);
}

module _ {W : Type 0} (router : Router W) (decode : List ℕ → Option Json)
    (encode : Response → List ℕ) where
  -- Where no handler returns nil for both its result and its error, a request is answered by one
  -- response, which has the id of the request and carries either a result or an error.
  pub handle_request-Answers :
      Every Replying router.handlers
      → (request : ValidatedRequest) (w : W)
      → Answers (or_null request.id) (handle_request router decode encode request w).0
  unfolding handle_request handle_inspected
  handle_request-Answers hr request w = by_inspection (inspect request.params)
    where
      by_inspection :
          (r : Result RpcError Request)
          → Answers
              (or_null request.id)
              (handle_inspected router decode encode (or_null request.id) request.method w r).0
      by_inspection (err e) = record {
        versioned = refl;
        same_id = refl;
        single = inr (e, refl, refl);
      }
      by_inspection (ok request') =
          response_of-Answers (or_null request.id)
            (dispatch_revision router request' request.method w).0
            (dispatch_revision-Replies router hr request' request.method w)

  abbrev written : Server W → List ℕ
  written s = s.transport.output

  -- One line more, that of a response.
  abbrev pub OneLine : Server W → Server W → Type 0
  OneLine s t = (r : Response) × (written t ≡ written s ++ (encode r ++ b'\n' ∷ []))

  write_error-line :
      (s : Server W) (id : Json) (code : ErrorCode) (message : String)
      → (write_error router decode encode s id code message).0 ≡ ok tt
      → OneLine s (write_error router decode encode s id code message).1
  unfolding write_error
  write_error-line s id code message e =
      let r = error_response id (rpc_error code message) in
      (r, write_message_unbounded-output s.transport (encode r) e)

  write_result-line :
      (s : Server W) (id : Json) (r : Response) (x : Result TransportError (Unit {0}))
      → (write_message s.transport (encode r)).0 ≡ x
      → (write_result router decode encode s id (x, (write_message s.transport (encode r)).1)).0
        ≡ ok tt
      → OneLine s
          (write_result router decode encode s id (x, (write_message s.transport (encode r)).1)).1
  unfolding write_result
  write_result-line s id r (ok u) x e = (r, write_message-output s.transport (encode r) x)
  write_result-line s id r (err response_too_large) x e =
      write_error-line s id internal_error "internal error" e
  write_result-line s id r (err _) x e = absurd (cc)

  write_response-line :
      (s : Server W) (id : Json) (r : Response)
      → (write_response router decode encode s id r).0 ≡ ok tt
      → OneLine s (write_response router decode encode s id r).1
  unfolding write_response
  write_response-line s id r e =
      write_result-line s id r (write_message s.transport (encode r)).0 refl e

  -- A notification, by which nothing changes at all.
  abbrev pub Silent : Server W → Result RequestValidationError ValidatedRequest → Server W → Type 0
  Silent s r t =
      (request : ValidatedRequest) × (r ≡ ok request) × (request.notification ≡ true) × (t ≡ s)

  -- One line, for a message that is no notification.
  abbrev pub Spoken : Server W → Result RequestValidationError ValidatedRequest → Server W → Type 0
  Spoken s r t =
      ((request : ValidatedRequest) → r ≡ ok request → request.notification ≡ false) × OneLine s t

  notification_or_line :
      (s : Server W) (request : ValidatedRequest) (b : Bool)
      (t : Result TransportError (Unit {0}) × Server W)
      → request.notification ≡ b
      → (t.0 ≡ ok tt → OneLine s t.1)
      → (if b then (ok tt, s) else t).0 ≡ ok tt
      → Silent s (ok request) (if b then (ok tt, s) else t).1
        ⊎ Spoken s (ok request) (if b then (ok tt, s) else t).1
  notification_or_line s request true t e h k = inl (request, refl, e, refl)
  notification_or_line s request false t e h k = inr (
    λ other same.
        let known : request ≡ other = cc in
        subst (λ (q : ValidatedRequest). q.notification ≡ false) known e,
    h k,
  )

  answer_validated-lines :
      (s : Server W) (r : Result RequestValidationError ValidatedRequest)
      → (answer_validated router decode encode s r).0 ≡ ok tt
      → Silent s r (answer_validated router decode encode s r).1
        ⊎ Spoken s r (answer_validated router decode encode s r).1
  unfolding answer_validated
  answer_validated-lines s (err e) h =
      inr (λ request same. absurd (cc), write_error-line s e.id e.code e.message h)
  answer_validated-lines s (ok request) h =
      let (response, w) = handle_request router decode encode request s.world in
      let after : Server W = record s { world = w } in
      notification_or_line s request request.notification
        (write_response router decode encode after (or_null request.id) response) refl
        (write_response-line after (or_null request.id) response) h

  -- A message that is handled without a failure of the transport is a valid notification, by which
  -- nothing changes at all; or it is none, and one line is written behind what was written before,
  -- that of a response.
  pub answer-lines :
      (s : Server W) (line : List ℕ)
      → (answer router decode encode s line).0 ≡ ok tt
      → Silent s
          (validate_request_message (decode line) s.max_argument_bytes)
          (answer router decode encode s line).1
        ⊎ Spoken s
            (validate_request_message (decode line) s.max_argument_bytes)
            (answer router decode encode s line).1
  unfolding answer
  answer-lines s line h =
      answer_validated-lines s (validate_request_message (decode line) s.max_argument_bytes) h
