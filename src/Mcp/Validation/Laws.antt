-- ===== src/Mcp/Validation/Laws.antt =====
-- validateRequestMessageWithLimits of internal/mcp/server: what a validated request is.
use flashgate_mcp.Base.{
  ℕ, Bool, true, false, not, Option, none, some, if◌then◌else◌, String, str_eq, eq_iff, ◌≡◌, ◌↔◌,
  refl, arith, subst, ◌⊎◌, inl, inr, Bool-cases,
}
use flashgate_mcp.Base.Result.{ok, err, ◌>>=◌}
use flashgate_mcp.Json.{Json, null, Raw, RawMap, get, as_map, is_object, is_null}
use flashgate_mcp.Mcp.Validation.{
  ValidatedRequest, RequestValidationError, named, is_valid_id, check_arguments,
  validate_tools_call_fields, validate_tools_call_params, validate_method_params, validate_method,
  validate_fields, validate_object, validate_request_message, request_id, is_version, Validated,
  bad_params, with_arguments, exceeds_limit, bad_request, string_field, validate_initialize_params,
  validate_initialize_fields, given,
}

-- If `m` is a value, it is one with `Q`.
record OkSo {A : Type 0} (Q : A → Type 0) (m : Validated A) : Type 0 where
  holds : (a : A) → m ≡ ok a → Q a

module _ {A : Type 0} {Q : A → Type 0} where
  OkSo-ok : (a : A) → Q a → OkSo Q (ok a)
  OkSo-ok a q = record { holds = λ b e. subst Q (cc) q }

  OkSo-err : (e : RequestValidationError) → OkSo Q (err e)
  OkSo-err e = record { holds = λ a r. absurd (cc) }

  OkSo-if :
      (b : Bool) (m n : Validated A)
      → (b ≡ true → OkSo Q m)
      → (b ≡ false → OkSo Q n)
      → OkSo Q (if b then m else n)
  OkSo-if true m n hm hn = hm refl
  OkSo-if false m n hm hn = hn refl

  OkSo-guard :
      (b : Bool) (e : RequestValidationError) (m : Validated A)
      → (b ≡ false → OkSo Q m)
      → OkSo Q (if b then err e else m)
  OkSo-guard b e m h = OkSo-if b (err e) m (λ _. OkSo-err e) h

OkSo-map :
    {A : Type 0} {R Q : A → Type 0} {m : Validated A} → ((a : A) → R a → Q a) → OkSo R m → OkSo Q m
OkSo-map f h = record { holds = λ a e. f a (h.holds a e) }

OkSo-any : {A : Type 0} {Q : A → Type 0} (m : Validated A) → ((a : A) → Q a) → OkSo Q m
OkSo-any m q = record { holds = λ a e. q a }

OkSo-bind :
    {A B : Type 0} {R : A → Type 0} {Q : B → Type 0} (m : Validated A) (f : A → Validated B)
    → OkSo R m
    → ((a : A) → R a → OkSo Q (f a))
    → OkSo Q (m >>= f)
OkSo-bind (ok a) f h k = k a (h.holds a refl)
OkSo-bind (err e) f h k = OkSo-err e

-- The params of a tool call are an object.
abbrev IsObject : Option Raw → Type 0
IsObject o = (raw : Raw) × (o ≡ some raw) × (is_object raw.value ≡ true)

-- What is known of params by the method.
abbrev ParamsOf : String → Option Raw → Type 0
ParamsOf method params = (method ≡ "tools/call") ⊎ (method ≡ "initialize") → IsObject params

check_arguments-IsObject :
    (id : Json) (limit : ℕ) (params : Raw) (fields : RawMap)
    → is_object params.value ≡ true
    → OkSo IsObject (check_arguments id limit params fields)
unfolding check_arguments with_arguments is_object
check_arguments-IsObject id limit params fields h = by_arguments (get fields "arguments")
  where
    made : OkSo IsObject (ok (some (with_arguments fields)))
    made = OkSo-ok (some (with_arguments fields)) (with_arguments fields, refl, refl)

    by_arguments :
        (o : Option Raw)
        → OkSo IsObject (elim o [
          | none ↦ ok (some (with_arguments fields))
          | some arguments ↦
              if is_null arguments.value
              then ok (some (with_arguments fields))
              else if not (is_object arguments.value)
              then bad_params id
              else if exceeds_limit arguments limit
              then bad_params id
              else ok (some params)
        ])
    by_arguments none = made
    by_arguments (some arguments) =
        OkSo-if (is_null arguments.value) _ _ (λ _. made)
          λ _. OkSo-guard (not (is_object arguments.value)) _ _ λ _.
            OkSo-guard (exceeds_limit arguments limit) _ _
              λ _. OkSo-ok (some params) (params, refl, h)

validate_tools_call-IsObject :
    (id : Json) (limit : ℕ) (params : Option Raw)
    → OkSo IsObject (validate_tools_call_params id limit params)
unfolding validate_tools_call_params validate_tools_call_fields
validate_tools_call-IsObject id limit none = OkSo-err _
validate_tools_call-IsObject id limit (some params) =
    OkSo-guard (not (is_object params.value)) _ _ λ h.
      OkSo-guard (exceeds_limit params limit) _ _
        λ _. by_fields (as_map params.value) (ground arith)
  where
    by_fields :
        (m : Option RawMap)
        → is_object params.value ≡ true
        → OkSo IsObject (validate_tools_call_fields id limit params m)
    by_fields none h = OkSo-err _
    by_fields (some fields) h =
        OkSo-if (named (string_field fields "name")) _ _
          (λ _. check_arguments-IsObject id limit params fields h) (λ _. OkSo-err _)

validate_initialize-IsObject :
    (id : Json) (params : Option Raw) → OkSo IsObject (validate_initialize_params id params)
unfolding validate_initialize_params validate_initialize_fields
validate_initialize-IsObject id none = OkSo-err _
validate_initialize-IsObject id (some params) =
    OkSo-guard (not (is_object params.value)) _ _
      λ h. by_fields (as_map params.value) (ground arith)
  where
    by_fields :
        (m : Option RawMap)
        → is_object params.value ≡ true
        → OkSo IsObject (validate_initialize_fields id params m)
    by_fields none h = OkSo-err _
    by_fields (some fields) h =
        OkSo-if (given (string_field fields "protocolVersion")) _ _
          (λ _. OkSo-ok (some params) (params, refl, h)) (λ _. OkSo-err _)

validate_method_params-ParamsOf :
    (id : Json) (method : String) (params : Option Raw) (limit : ℕ)
    → OkSo (ParamsOf method) (validate_method_params id method params limit)
unfolding validate_method_params
validate_method_params-ParamsOf id method params limit =
    OkSo-if (str_eq method "initialize") _ _
      (λ _. OkSo-map (λ o h _. h) (validate_initialize-IsObject id params))
      λ no_init.
        OkSo-if (str_eq method "tools/list") _ _ (λ list. OkSo-any _ λ o e. listing list o e)
          λ _.
            OkSo-if (str_eq method "tools/call") _ _
              (λ _. OkSo-map (λ o h _. h) (validate_tools_call-IsObject id limit params))
              λ no_call. OkSo-ok params (λ e.
                absurd (ground (arith, eq_iff method "initialize", eq_iff method "tools/call")))
  where
    listing : str_eq method "tools/list" ≡ true → (o : Option Raw) → ParamsOf method o
    listing l o (inl e) = absurd (ground (arith, subst (λ m. str_eq m "tools/list" ≡ true) e l))
    listing l o (inr e) = absurd (ground (arith, subst (λ m. str_eq m "tools/list" ≡ true) e l))

-- A validated request: a notification is what has no id, an id is a string, a finite number or
-- null, the method is not blank, and what calls a tool or initializes has an object of params.
pub record IsProper (r : ValidatedRequest) : Type 0 where
  pub silent : (r.notification ≡ true) ↔ (r.id ≡ none)
  pub identified : (i : Json) → r.id ≡ some i → is_valid_id i ≡ true
  pub method_named : named (some r.method) ≡ true
  pub params_of : r.notification ≡ false → ParamsOf r.method r.params

validate_method-IsProper :
    (fields : RawMap) (id : Option Json) (limit : ℕ) (method : Option String)
    → ((i : Json) → id ≡ some i → is_valid_id i ≡ true)
    → OkSo IsProper (validate_method fields id limit method)
unfolding validate_method
validate_method-IsProper fields id limit none h = OkSo-err _
validate_method-IsProper fields none limit (some m) h = OkSo-guard (not (named (some m))) _ _ λ n.
    OkSo-ok _ (record {
      silent = (λ _. refl, λ _. refl);
      identified = h;
      method_named = ground arith;
      params_of = λ e. absurd (cc);
    })
validate_method-IsProper fields (some i) limit (some m) h =
    OkSo-guard (not (named (some m))) _ _ λ n.
      OkSo-bind _ _ (validate_method_params-ParamsOf i m (get fields "params") limit) λ params p.
        OkSo-ok _ (record {
          silent = (λ e. absurd (cc), λ e. absurd (cc));
          identified = h;
          method_named = ground arith;
          params_of = λ _. p;
        })

request_id-valid :
    (fields : RawMap) (id : Option Json) (i : Json)
    → request_id fields ≡ some id
    → id ≡ some i
    → is_valid_id i ≡ true
unfolding request_id
request_id-valid fields id i e h = by_id (get fields "id") e
  where
    by_id :
        (o : Option Raw)
        → (elim o [
          | none ↦ some none
          | some raw ↦ if is_valid_id raw.value then some (some raw.value) else none
        ])
          ≡ some id
        → is_valid_id i ≡ true
    by_id none r = absurd (cc)
    by_id (some raw) r = elim (Bool-cases (is_valid_id raw.value)) [
      | inl v ↦ let same : raw.value ≡ i = ground arith in subst (λ j. is_valid_id j ≡ true) same v
      | inr v ↦ absurd (ground arith)
    ]

validate_fields-IsProper :
    (fields : RawMap) (limit : ℕ) → OkSo IsProper (validate_fields fields limit)
unfolding validate_fields
validate_fields-IsProper fields limit =
    OkSo-guard (not (is_version (string_field fields "jsonrpc"))) _ _
      λ _. by_id (request_id fields) refl
  where
    by_id :
        (o : Option (Option Json))
        → request_id fields ≡ o
        → OkSo IsProper (elim o [
          | none ↦ bad_request null
          | some id ↦ validate_method fields id limit (string_field fields "method")
        ])
    by_id none e = OkSo-err _
    by_id (some id) e =
        validate_method-IsProper fields id limit (string_field fields "method")
          (λ i. request_id-valid fields id i e)

-- A request that the validation of a message lets through has a valid id or none, is a
-- notification exactly if it has none, has a method that is not blank, and has an object of params
-- if it calls a tool or initializes and is no notification.
pub validate-IsProper :
    (message : Option Json) (limit : ℕ) (r : ValidatedRequest)
    → validate_request_message message limit ≡ ok r
    → IsProper r
unfolding validate_request_message validate_object
validate-IsProper message limit r e = (by_message message).holds r e
  where
    by_object : (m : Option RawMap) → OkSo IsProper (validate_object limit m)
    by_object none = OkSo-err _
    by_object (some fields) = validate_fields-IsProper fields limit

    by_message : (m : Option Json) → OkSo IsProper (validate_request_message m limit)
    by_message none = OkSo-err _
    by_message (some m) = OkSo-guard (not (is_object m)) _ _ (λ _. by_object (as_map m))
