-- ===== src/Mcptest/Envelopes.antt =====
-- The envelopes of internal/protocol/tools.go, as internal/mcptest reads them.
use flashgate_mcp.Base.{
  ◌≡◌, ◌≢◌, refl, sym, ◌∙◌, inl, inr, Bool, true, false, Bool-cases, Option, none, some, String,
  subst, is_blank,
}
use flashgate_mcp.Json.{Json, Encoding, is_object, as_string, to_map, put, get}
use flashgate_mcp.Protocol.{RpcError}
use flashgate_mcp.Mcp.Router.{result, error}
use flashgate_mcp.Mcp.Tools.Outcome.{
  Category, not_found, already_exists, access_denied, invalid_path, unsupported_path_type,
  unsupported_operation, limit_exceeded, invalid_arguments, category_text, message_text, Executed,
  done, refused, broken,
}
use flashgate_mcp.Mcp.Tools.Calling.{call_outcome, error_payload}
use flashgate_mcp.Mcp.Tools.Calling.Answers.{
  success_envelope, failure_envelope, call_outcome-done, call_outcome-other, call_outcome-refused,
}
use flashgate_mcp.Mcptest.{
  decode_content, content_of, content_object, block_object, decode_text_block, block_text,
  decode_flagged, decode_success, decode_error, error_flag, is_error_payload, non_blank_text,
  keys_among, member, DecodedCallToolResult, decode_call_tool_result,
}

-- What a client is to be told of a tool that came to this.
abbrev pub payload : Executed → Option Json
payload (done v) = some v
payload (refused c) = some (error_payload (category_text c) (message_text c))
payload broken = none

abbrev pub told : Executed → Json → DecodedCallToolResult
told (refused c) w = record { text_content = w; structured_content = none; is_error = true }
told _ w = record { text_content = w; structured_content = some w; is_error = false }

Option-some : (u w : Json) → Option.some u ≡ some w → u ≡ w
Option-some u w s = cc

result-injective : (u v : Json) → result u ≡ result v → u ≡ v
result-injective u v s = cc

error-result : (x : RpcError) (v : Json) → error x ≢ result v
error-result x v s = absurd (cc)

module _ (e : Encoding) (parse : String → Option Json) (deep_equal : Json → Json → Bool) where
  decode-success :
      (v : Json)
      → parse (e.marshal v) ≡ some v
      → deep_equal v v ≡ true
      → is_object v ≡ true
      → decode_call_tool_result parse deep_equal (success_envelope e v) ≡ some (told (done v) v)
  unfolding decode_call_tool_result decode_content content_of content_object block_object
      decode_text_block block_text decode_flagged decode_success decode_error error_flag
      is_error_payload non_blank_text keys_among member to_map put get is_blank as_string
  decode-success v p d o = rw (p, o, d, o) refl

  decode-failure :
      (c : Category)
      → (let w = error_payload (category_text c) (message_text c) in
          parse (e.marshal w) ≡ some w
          → decode_call_tool_result parse deep_equal (failure_envelope e c)
            ≡ some (told (refused c) w))
  unfolding decode_call_tool_result decode_content content_of content_object block_object
      decode_text_block block_text decode_flagged decode_success decode_error error_flag
      is_error_payload non_blank_text keys_among member to_map put get is_blank as_string is_object
  decode-failure not_found p = rw p refl
  decode-failure already_exists p = rw p refl
  decode-failure access_denied p = rw p refl
  decode-failure invalid_path p = rw p refl
  decode-failure unsupported_path_type p = rw p refl
  decode-failure unsupported_operation p = rw p refl
  decode-failure limit_exceeded p = rw p refl
  decode-failure invalid_arguments p = rw p refl

  decode-done :
      (u v : Json)
      → parse (e.marshal u) ≡ some u
      → deep_equal u u ≡ true
      → call_outcome e (done u) ≡ result v
      → decode_call_tool_result parse deep_equal v ≡ some (told (done u) u)
  decode-done u v p d h = elim (Bool-cases (is_object u)) [
    | inl o ↦
        subst (λ t. decode_call_tool_result parse deep_equal t ≡ some (told (done u) u))
          (result-injective _ v (sym (call_outcome-done e u o) ∙ h)) (decode-success u p d o)
    | inr o ↦ absurd (error-result _ v (sym (call_outcome-other e u o) ∙ h))
  ]

  -- Where the text of a value is read as the value, and a value is equal to itself, the envelope
  -- that tools/call makes of what a tool came to is read by DecodeCallToolResult as what is to be
  -- told of it: a result as this result, in both forms, and an error as its category and message,
  -- with no result.
  pub decode-call_outcome :
      (x : Executed) (v w : Json)
      → payload x ≡ some w
      → parse (e.marshal w) ≡ some w
      → deep_equal w w ≡ true
      → call_outcome e x ≡ result v
      → decode_call_tool_result parse deep_equal v ≡ some (told x w)
  decode-call_outcome (done u) v w s p d h =
      let same : w ≡ u = sym (Option-some u w s) in
      subst (λ z. decode_call_tool_result parse deep_equal v ≡ some (told (done u) z)) (sym same)
        (decode-done u v (subst (λ z. parse (e.marshal z) ≡ some z) same p)
          (subst (λ z. deep_equal z z ≡ true) same d) h)
  decode-call_outcome (refused c) v w s p d h =
      let same : w ≡ error_payload (category_text c) (message_text c) = sym (Option-some _ w s) in
      let envelope : failure_envelope e c ≡ v =
        result-injective _ v (sym (call_outcome-refused e c) ∙ h) in
      subst (λ t. decode_call_tool_result parse deep_equal t ≡ some (told (refused c) w)) envelope
        (subst
          (λ z.
            decode_call_tool_result parse deep_equal (failure_envelope e c)
            ≡ some (told (refused c) z))
          (sym same) (decode-failure c (subst (λ z. parse (e.marshal z) ≡ some z) same p)))
  decode-call_outcome broken v w s p d h = absurd (cc)
