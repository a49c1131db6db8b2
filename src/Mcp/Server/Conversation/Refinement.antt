-- ===== src/Mcp/Server/Conversation/Refinement.antt =====
-- Run of internal/mcp/server: the loop over bytes as a conversation.
use flashgate_mcp.Base.{
  ℕ, zero, suc, ◌≤◌, ◌<◌, ◌≡◌, refl, sym, ap, ◌∙◌, Bool, true, false, Option, none, some, List, [],
  ◌∷◌, ◌++◌, append_assoc, append-nil, length, length-append, All, arith, if◌then◌else◌, subst,
}
use flashgate_mcp.Base.Result.{Result, ok, err}
use flashgate_mcp.Json.{Json}
use flashgate_mcp.Protocol.{Response}
use flashgate_mcp.Mcp.Transport.{
  TransportError, read_message, read_line, write_message, write_message_unbounded, write_payload,
}
use flashgate_mcp.Mcp.Transport.Framing.{NoNewline, Fits, read_message-Fits}
use flashgate_mcp.Mcp.Validation.{
  ValidatedRequest, RequestValidationError, validate_request_message, or_null,
}
use flashgate_mcp.Mcp.Router.{Router}
use flashgate_mcp.Mcp.Server.{
  Server, Exit, finished, handle_request, write_error, write_result, write_response,
  answer_validated, answer, answer_read, round, after_round, exit_of, run_loop, run,
}
use flashgate_mcp.Mcp.Server.Conversation.{
  frame, payload_of, reply_validated, reply, with_payload, converse,
}

module _ {W : Type 0} (router : Router W) (decode : List ℕ → Option Json)
    (encode : Response → List ℕ) where
  output_with : List ℕ → Option (List ℕ) → List ℕ
  output_with out none = out
  output_with out (some p) = out ++ (p ++ b'\n' ∷ [])

  written : Server W → Option (List ℕ) × W → Server W
  written s (p, w) = record s {
    world = w;
    transport = record s.transport { output = output_with s.transport.output p };
  }

  abbrev succeeded : Server W → Result TransportError (Unit {0}) × Server W
  succeeded s = (ok tt, s)

  write_response_lem :
      (s : Server W) (id : Json) (r : Response)
      → s.transport.broken ≡ false
      → write_response router decode encode s id r ≡ (
        ok tt,
        written s (
          some (
              payload_of router decode encode s.max_argument_bytes s.transport.max_write_bytes id
                r),
          s.world,
        ),
      )
  unfolding write_response write_result write_error write_message write_message_unbounded
      write_payload written output_with payload_of
  write_response_lem s id r b = ground (arith, b)

  notification_lem :
      (b : Bool) (s : Server W) (p : List ℕ) (w : W)
      → (if b then succeeded s else succeeded (written s (some p, w)))
        ≡ succeeded (written s (if b then (none, s.world) else (some p, w)))
  unfolding written output_with
  notification_lem true s p w = refl
  notification_lem false s p w = refl

  answer_validated_lem :
      (s : Server W) (r : Result RequestValidationError ValidatedRequest)
      → s.transport.broken ≡ false
      → answer_validated router decode encode s r ≡ (
        ok tt,
        written s (
            reply_validated router decode encode s.max_argument_bytes s.transport.max_write_bytes r
              s.world),
      )
  unfolding answer_validated reply_validated write_error write_message_unbounded write_payload
      written output_with
  answer_validated_lem s (err e) b = ground (arith, b)
  answer_validated_lem s (ok request) b =
      let (response, w) = handle_request router decode encode request s.world in
      rw (write_response_lem (record s { world = w }) (or_null request.id) response b)
        (notification_lem request.notification s _ w)

  answer_lem :
      (s : Server W) (m : List ℕ)
      → s.transport.broken ≡ false
      → answer router decode encode s (m ++ b'\n' ∷ [])
        ≡ succeeded (
            written s (
              reply router decode encode s.max_argument_bytes s.transport.max_write_bytes m
                s.world))
  unfolding answer reply
  answer_lem s m b =
      answer_validated_lem s
        (validate_request_message (decode (m ++ b'\n' ∷ [])) s.max_argument_bytes) b

  -- One message is read and answered.
  round_lem :
      (s : Server W) (m rest : List ℕ)
      → s.transport.broken ≡ false
      → s.transport.input ≡ m ++ b'\n' ∷ rest
      → NoNewline m
      → Fits s.transport.max_read_bytes (length m)
      → round router decode encode s
        ≡ succeeded (
            written
              (record s { transport = record s.transport { input = rest } })
              (reply router decode encode s.max_argument_bytes s.transport.max_write_bytes m
                s.world))
  unfolding round answer_read
  round_lem s m rest b i h fits =
      rw (read_message-Fits s.transport m rest h i fits)
        (answer_lem (record s { transport = record s.transport { input = rest } }) m b)

  -- What a run has come to, from a server on, in a conversation.
  pub record Conversed (s : Server W) (ps : List (List ℕ)) (w : W) (r : Exit × Server W)
      : Type 0 where
    pub ended : r.0 ≡ finished
    pub world_eq : r.1.world ≡ w
    pub output_eq : r.1.transport.output ≡ s.transport.output ++ frame ps
    pub input_eq : r.1.transport.input ≡ []

  -- Messages of one line each that the reader accepts.
  abbrev pub Readable : ℕ → List (List ℕ) → Type 0
  Readable limit = All (λ m. NoNewline m × Fits limit (length m))

  -- The end of the input.
  round_end :
      (s : Server W)
      → s.transport.input ≡ []
      → round router decode encode s ≡ (
        Result.err TransportError.end_of_input,
        record s { transport = record s.transport { input = [] } },
      )
  unfolding round answer_read read_message read_line
  round_end s i = rw i refl

  run_loop_lem :
      (is_cancelled : ℕ → Bool) (fuel n : ℕ) (s : Server W)
      → is_cancelled n ≡ false
      → run_loop router decode encode is_cancelled (suc fuel) n s
        ≡ after_round router decode encode
            (round router decode encode s).0
            (round router decode encode s).1
            (run_loop router decode encode is_cancelled fuel
              (suc n)
              (round router decode encode s).1)
  unfolding run_loop
  run_loop_lem is_cancelled fuel n s c = rw c refl

  frame_lem :
      (out : List ℕ) (p : Option (List ℕ)) (ps : List (List ℕ)) (a b : ℕ)
      → output_with out p ++ frame ps ≡ out ++ frame (with_payload router decode encode a b p ps)
  unfolding output_with with_payload frame
  frame_lem out none ps a b = refl
  frame_lem out (some p) ps a b =
      append_assoc out (p ++ b'\n' ∷ []) (frame ps)
      ∙ ap (λ t. out ++ t) (append_assoc p (b'\n' ∷ []) (frame ps))

  run_loop-converse :
      (is_cancelled : ℕ → Bool) (hc : (n : ℕ) → is_cancelled n ≡ false) (fuel n : ℕ)
      (ms : List (List ℕ)) (s : Server W)
      → length ms < fuel
      → s.transport.broken ≡ false
      → s.transport.input ≡ frame ms
      → Readable s.transport.max_read_bytes ms
      → (let c =
            converse router decode encode s.max_argument_bytes s.transport.max_write_bytes ms
              s.world in
          Conversed s c.0 c.1 (run_loop router decode encode is_cancelled fuel n s))
  unfolding converse written after_round exit_of frame
  run_loop-converse is_cancelled hc zero n ms s enough b i h = absurd (omega arith)
  run_loop-converse is_cancelled hc (suc fuel) n [] s enough b i h =
      let e =
        run_loop_lem is_cancelled fuel n s (hc n)
        ∙ ap
            (λ (x : Result TransportError (Unit {0}) × Server W).
              after_round router decode encode x.0 x.1
                (run_loop router decode encode is_cancelled fuel (suc n) x.1))
            (round_end s i) in
      subst (Conversed s [] s.world) (sym e) (record {
        ended = refl;
        world_eq = refl;
        output_eq = sym (append-nil s.transport.output);
        input_eq = refl;
      })
  run_loop-converse is_cancelled hc (suc fuel) n (m ∷ ms) s enough b i h =
      let a = s.max_argument_bytes in
      let limit = s.transport.max_write_bytes in
      let x = reply router decode encode a limit m s.world in
      let next = written (record s { transport = record s.transport { input = frame ms } }) x in
      let rest = converse router decode encode a limit ms x.1 in
      let e =
        run_loop_lem is_cancelled fuel n s (hc n)
        ∙ ap
            (λ (x : Result TransportError (Unit {0}) × Server W).
              after_round router decode encode x.0 x.1
                (run_loop router decode encode is_cancelled fuel (suc n) x.1))
            (round_lem s m (frame ms) b i h.0.0 h.0.1) in
      let later = run_loop-converse is_cancelled hc fuel (suc n) ms next (omega arith) b refl h.1 in
      subst (Conversed s (with_payload router decode encode a limit x.0 rest.0) rest.1) (sym e)
        (record {
          ended = later.ended;
          world_eq = later.world_eq;
          output_eq = later.output_eq ∙ frame_lem s.transport.output x.0 rest.0 a limit;
          input_eq = later.input_eq;
        })

  length-frame : (ms : List (List ℕ)) → length ms ≤ length (frame ms)
  unfolding frame
  length-frame [] = omega arith
  length-frame (m ∷ ms) = omega (arith, length-frame ms, length-append m (b'\n' ∷ frame ms))

  -- Where the context does not end and writing does not fail, Run on an input of lines that the
  -- reader accepts is the conversation that answers one message after the other, without bytes or
  -- a transport: it ends with the input, in the world of the conversation, and what it has written
  -- is the payloads of the conversation, in their order, each with the end of its line.
  pub run-converse :
      (is_cancelled : ℕ → Bool) (ms : List (List ℕ)) (s : Server W)
      → ((n : ℕ) → is_cancelled n ≡ false)
      → s.transport.broken ≡ false
      → s.transport.input ≡ frame ms
      → Readable s.transport.max_read_bytes ms
      → (let c =
            converse router decode encode s.max_argument_bytes s.transport.max_write_bytes ms
              s.world in
          Conversed s c.0 c.1 (run router decode encode is_cancelled s))
  unfolding run
  run-converse is_cancelled ms s hc b i h =
      run_loop-converse is_cancelled hc (suc (length s.transport.input)) 0 ms s
        (rw i (omega (arith, length-frame ms))) b i h
