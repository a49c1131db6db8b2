-- ===== src/Mcp/Tools/Calling/Answers.antt =====
-- CallHandler.Handle of internal/mcp/tools: the answer to a call, and the calls of the system that
-- it makes, for a registry all of whose tools keep a promise.
use flashgate_mcp.Base.{
  ◌≡◌, refl, sym, subst, ap, ◌∙◌, ◌⊎◌, inl, inr, Bool, true, false, not, Bool-cases, Option, none,
  some, Option-cases, List, [], ◌∷◌, String, All, if◌then◌else◌, str_eq, arith,
}
use flashgate_mcp.Base.Result.{Result, ok, err}
use flashgate_mcp.Os.{Call}
use flashgate_mcp.Os.Rules.{Holds, Holds-and_then, Gives, Holds-Gives}
use flashgate_mcp.Json.{Json, Raw, RawMap, to_map, Encoding, bool, object, field, end, is_object}
use flashgate_mcp.Protocol.{RpcError}
use flashgate_mcp.Mcp.Registry.{Registry, get}
use flashgate_mcp.Mcp.Registry.Every.{Every, find-Every}
use flashgate_mcp.Mcp.Router.{Outcome, result, error, invalid_params_error}
use flashgate_mcp.Mcp.Tools.Outcome.{
  Category, not_found, already_exists, access_denied, invalid_path, unsupported_path_type,
  unsupported_operation, limit_exceeded, invalid_arguments, category_text, message_text, Executed,
  done, refused, broken,
}
use flashgate_mcp.Mcp.Tools.Tool.{Tool}
use flashgate_mcp.Mcp.Tools.Conformance.{conforms, Produces, Behaves}
use flashgate_mcp.Mcp.Tools.Calling.Asking.{Asks, validate_call_params-Asks}
use flashgate_mcp.Mcp.Tools.Calling.{
  CallParams, validate_call_params, text_content, error_payload, internal_tool_result_error,
  call_outcome, call_tool, call_validated, handle_call, new_call_tool_result,
  new_call_tool_error_result, or_internal, with_name, call_fields, call_object,
}

-- A predicate on every tool of a registry.
abbrev pub EveryTool : (Tool → Type 0) → Registry Tool → Type 0
EveryTool Q r = Every Q r.tools

-- The envelope of a result, which is given as text too, and that of an error.
abbrev pub success_envelope : Encoding → Json → Json
success_envelope e v =
    object (field "content" 0 (text_content (e.marshal v)) (field "structuredContent" 0 v end))

abbrev pub failure_envelope : Encoding → Category → Json
failure_envelope e c = object (
    field "content" 0 (text_content (e.marshal (error_payload (category_text c) (message_text c))))
      (field "isError" 0 (bool true) end))

-- A result that a client is not told of.
abbrev pub Internal : Executed → Type 0
Internal (done v) = is_object v ≡ false
Internal (refused c) = ⊥
Internal broken = Unit

-- The params ask for a tool of the registry, which may come to this with the arguments of the
-- call.
pub record Executes (r : Registry Tool) (params : Option Raw) (t : Tool) (x : Executed)
    : Type 0 where
  pub asked : CallParams
  pub asks : Asks params asked
  pub offered : get r asked.name ≡ some t
  pub gives : Gives (t.execute asked.arguments) x

-- What a call with these params may be answered with.
pub data CallAnswer (e : Encoding) (r : Registry Tool) (params : Option Raw)
    : Outcome → Type 0 where
  -- the params ask for no call, or for a tool that is not there
  invalid :
      ((p : CallParams) → Asks params p → get r p.name ≡ none)
      → CallAnswer e r params (error invalid_params_error)
  internal :
      (t : Tool) (x : Executed)
      → Executes r params t x
      → Internal x
      → CallAnswer e r params (error internal_tool_result_error)
  failure :
      (t : Tool) (c : Category)
      → Executes r params t (refused c)
      → CallAnswer e r params (result (failure_envelope e c))
  success :
      (t : Tool) (v : Json)
      → Executes r params t (done v)
      → is_object v ≡ true
      → conforms t.output_schema v ≡ true
      → CallAnswer e r params (result (success_envelope e v))

new_call_tool_error_result-category :
    (e : Encoding) (c : Category)
    → new_call_tool_error_result e (category_text c) (message_text c) ≡ some (failure_envelope e c)
unfolding new_call_tool_error_result flashgate_mcp.Mcp.Tools.Arguments.is_non_blank
    flashgate_mcp.Base.is_blank
new_call_tool_error_result-category e not_found = refl
new_call_tool_error_result-category e already_exists = refl
new_call_tool_error_result-category e access_denied = refl
new_call_tool_error_result-category e invalid_path = refl
new_call_tool_error_result-category e unsupported_path_type = refl
new_call_tool_error_result-category e unsupported_operation = refl
new_call_tool_error_result-category e limit_exceeded = refl
new_call_tool_error_result-category e invalid_arguments = refl

validate_call_params-error :
    (params : Option Raw) (x : RpcError)
    → validate_call_params params ≡ err x
    → x ≡ invalid_params_error
unfolding validate_call_params call_object call_fields with_name
validate_call_params-error none x h = ground arith
validate_call_params-error (some raw) x h = by_value raw.value h
  where
    by_arguments :
        (name : String) (o : Option Json) → with_name name o ≡ err x → x ≡ invalid_params_error
    by_arguments name none h = ground arith
    by_arguments name (some a) h = absurd (cc)

    by_name :
        (fields : RawMap) (o : Option String)
        → call_fields fields o ≡ err x
        → x ≡ invalid_params_error
    by_name fields none h = ground arith
    by_name fields (some name) h = by_arguments name _ h

    by_value : (v : Json) → call_object v ≡ err x → x ≡ invalid_params_error
    by_value (object fs) h = by_name (to_map fs) _ h
    by_value _ h = ground arith

-- The outcome of a result, and that of an error.
pub call_outcome-done :
    (e : Encoding) (v : Json)
    → is_object v ≡ true
    → call_outcome e (done v) ≡ result (success_envelope e v)
unfolding call_outcome or_internal new_call_tool_result
call_outcome-done e v o = rw o refl

pub call_outcome-other :
    (e : Encoding) (v : Json)
    → is_object v ≡ false
    → call_outcome e (done v) ≡ error internal_tool_result_error
unfolding call_outcome or_internal new_call_tool_result
call_outcome-other e v o = rw o refl

pub call_outcome-refused :
    (e : Encoding) (c : Category) → call_outcome e (refused c) ≡ result (failure_envelope e c)
unfolding call_outcome or_internal
call_outcome-refused e c = ap or_internal (new_call_tool_error_result-category e c)

module _ (e : Encoding) (r : Registry Tool) (params : Option Raw) (P : Call → Type 0)
    (hr : EveryTool (Behaves P) r) where
  call_outcome-CallAnswer :
      (t : Tool) (x : Executed)
      → Executes r params t x
      → Produces t.output_schema x
      → CallAnswer e r params (call_outcome e x)
  unfolding call_outcome
  call_outcome-CallAnswer t (done v) run h = elim (Bool-cases (is_object v)) [
    | inl o ↦ subst (CallAnswer e r params) (sym (call_outcome-done e v o)) (success t v run o h)
    | inr o ↦
        subst (CallAnswer e r params) (sym (call_outcome-other e v o)) (internal t (done v) run o)
  ]
  call_outcome-CallAnswer t (refused c) run h =
      subst (CallAnswer e r params) (sym (call_outcome-refused e c)) (failure t c run)
  call_outcome-CallAnswer t broken run h = internal t broken run tt

  call_tool-CallAnswer :
      (p : CallParams) (o : Option Tool)
      → Asks params p
      → get r p.name ≡ o
      → Holds P (CallAnswer e r params) (call_tool e p.arguments o)
  unfolding call_tool get
  call_tool-CallAnswer p none asks known = invalid λ q asks'.
      let valid : validate_call_params params ≡ ok p =
        (validate_call_params-Asks params p).1 asks in
      let valid' : validate_call_params params ≡ ok q =
        (validate_call_params-Asks params q).1 asks' in
      let same : p ≡ q = cc in subst (λ (s : CallParams). get r s.name ≡ none) same known
  call_tool-CallAnswer p (some t) asks known =
      Holds-and_then P (λ x. Produces t.output_schema x × Gives (t.execute p.arguments) x)
        (CallAnswer e r params) _ _
        (Holds-Gives P (Produces t.output_schema) (t.execute p.arguments)
          (find-Every (Behaves P) r.tools p.name t hr known p.arguments))
        (λ x h.
          call_outcome-CallAnswer t x
            (record { asked = p; asks = asks; offered = known; gives = h.1 }) h.0)

  call_validated-CallAnswer :
      (v : Result RpcError CallParams)
      → validate_call_params params ≡ v
      → Holds P (CallAnswer e r params) (call_validated e r v)
  unfolding call_validated
  call_validated-CallAnswer (err x) valid =
      subst (λ y. CallAnswer e r params (error y)) (sym (validate_call_params-error params x valid))
        (invalid λ p asks.
          let valid' : validate_call_params params ≡ ok p =
            (validate_call_params-Asks params p).1 asks in
          absurd (cc))
  call_validated-CallAnswer (ok p) valid =
      call_tool-CallAnswer p (get r p.name) ((validate_call_params-Asks params p).0 valid) refl

  -- For a registry each of whose tools makes only calls of some kind and gives only results that
  -- conform to its output schema, tools/call makes only calls of this kind. Its answer is that the
  -- params are invalid, and then they ask for no call or for a tool that is not there; or, for the
  -- tool that they ask for and something that this tool may come to with the arguments that they
  -- give, which are an empty object where there are none: the envelope of a result that is an
  -- object and conforms to the output schema of the tool, the envelope of an error of the category
  -- that the tool came to, or an internal error where it came to an unexpected error or to a
  -- result that is no object.
  pub handle_call-CallAnswer : Holds P (CallAnswer e r params) (handle_call e r params)
  unfolding handle_call
  handle_call-CallAnswer = call_validated-CallAnswer (validate_call_params params) refl
