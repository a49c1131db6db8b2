-- ===== src/Mcp/Router/Admission.antt =====
-- DispatchRevision of internal/mcp/router: the requests that are admitted to a handler, and what
-- becomes of all others.
use flashgate_mcp.Base.{
  Bool-cases, Bool, true, false, not, ◌&&◌, Option, none, some, ◌≡◌, ◌≢◌, refl, sym, ◌∙◌, inl, inr,
  arith, String, str_eq, eq_iff, if◌then◌else◌, ◌⊎◌,
}
use flashgate_mcp.Protocol.{RpcError, protocol_version}
use flashgate_mcp.Mcp.Registry.{find}
use flashgate_mcp.Mcp.Revision.{Request, enabled, stateless, complete, discover_result}
use flashgate_mcp.Mcp.Router.{
  Outcome, result, error, nothing, panic, Handler, Router, not_found_error, dispatch_revision,
  dispatch_enabled, call_handler, completed_outcome, outcome_of,
}
use flashgate_mcp.Mcp.Router.Laws.{Refused}

module _ {W : Type 0} (r : Router W) (request : Request) (method : String) (w : W) where
  -- What may come to a handler: a request of an enabled revision in the envelope of that
  -- revision, and for a method of the revision that the router does not answer itself.
  abbrev pub Admitted : Type 0
  Admitted =
      (enabled r.policy request.version ≡ true)
      × ((request.stateless_envelope ≡ true)
            × (request.version ≡ stateless)
            × ((method ≡ "tools/list") ⊎ (method ≡ "tools/call"))
          ⊎ (request.stateless_envelope ≡ false)
            × (request.version ≡ protocol_version)
            × (method ≢ "server/discover"))

  -- What a dispatch may come to: the world is that of the handler, or it is as it was.
  pub data Dispatched (x : Outcome × W) : Type 0 where
    handled :
        Admitted
        → (handler : Handler W) → find r.handlers method ≡ some handler
        → x.1 ≡ (handler request.params w).1
        → (request.version ≡ protocol_version → x ≡ handler request.params w)
        → ((e : RpcError) → (handler request.params w).0 ≡ error e → x ≡ handler request.params w)
        → Dispatched x
    unknown :
        Admitted → find r.handlers method ≡ none → x ≡ (error not_found_error, w) → Dispatched x
    kept :
        ¬ Admitted
        → x.1 ≡ w
        → (method ≢ "server/discover" → Refused r request method w x)
        → Dispatched x

  Dispatched-if :
      (b : Bool) (e : RpcError) (rest : Outcome × W)
      → (b ≡ true → ¬ Admitted)
      → (b ≡ false → Dispatched rest)
      → Dispatched (if b then (error e, w) else rest)
  Dispatched-if true e rest refused h = kept (refused refl) refl (λ _. (e, refl))
  Dispatched-if false e rest refused h = h refl

  completed_outcome-world :
      (x : Outcome × W)
      → ((completed_outcome r request method x).1 ≡ x.1)
        × (request.version ≡ protocol_version → completed_outcome r request method x ≡ x)
        × ((e : RpcError) → x.0 ≡ error e → completed_outcome r request method x ≡ x)
  unfolding completed_outcome
  completed_outcome-world (result v, u) = (
    ground arith,
    λ version. ground (arith, eq_iff request.version protocol_version),
    λ e same. absurd (cc),
  )
  completed_outcome-world (nothing, u) = (
    ground arith,
    λ version. ground (arith, eq_iff request.version protocol_version),
    λ e same. absurd (cc),
  )
  completed_outcome-world (error e, u) = (refl, λ _. refl, λ d same. refl)
  completed_outcome-world (panic, u) = (refl, λ _. refl, λ d same. refl)

  call_handler-Dispatched :
      (found : Option (Handler W))
      → Admitted
      → find r.handlers method ≡ found
      → Dispatched (call_handler r request method w found)
  unfolding call_handler
  call_handler-Dispatched none a e = unknown a e refl
  call_handler-Dispatched (some handler) a e =
      let (world, same, failed) = completed_outcome-world (handler request.params w) in
      handled a handler e world same failed

  -- server/discover is a method of no handler that is admitted.
  Admitted-other : Admitted → method ≢ "server/discover"
  Admitted-other (on, inl (envelope, version, inl same)) e =
      absurd (ground (arith, (eq_iff "tools/list" "server/discover").1 (sym same ∙ e)))
  Admitted-other (on, inl (envelope, version, inr same)) e =
      absurd (ground (arith, (eq_iff "tools/call" "server/discover").1 (sym same ∙ e)))
  Admitted-other (on, inr (envelope, version, other)) e = other e

  stateless-other : stateless ≢ protocol_version
  stateless-other e = absurd (ground (arith, (eq_iff stateless protocol_version).1 e))

  -- The envelope is that of the revision.
  abbrev Matched : Type 0
  Matched =
      (request.stateless_envelope ≡ true) × (request.version ≡ stateless)
      ⊎ (request.stateless_envelope ≡ false) × (request.version ≡ protocol_version)

  Admitted-Matched : Admitted → Matched
  Admitted-Matched (on, inl (envelope, version, known)) = inl (envelope, version)
  Admitted-Matched (on, inr (envelope, version, other)) = inr (envelope, version)

  -- The methods of the stateless revision.
  Admitted-known :
      Admitted → request.version ≡ stateless → (method ≡ "tools/list") ⊎ (method ≡ "tools/call")
  Admitted-known (on, inl (envelope, version, known)) e = known
  Admitted-known (on, inr (envelope, version, other)) e = absurd (stateless-other (sym e ∙ version))

  matched_tests :
      (request.stateless_envelope && not (str_eq request.version stateless)) ≡ false
      → (not request.stateless_envelope && not (str_eq request.version protocol_version)) ≡ false
      → Matched
  matched_tests a b = elim (Bool-cases request.stateless_envelope) [
    | inl e ↦ inl (e, (eq_iff request.version stateless).0 (ground (arith, e, a)))
    | inr e ↦ inr (e, (eq_iff request.version protocol_version).0 (ground (arith, e, b)))
  ]

  -- The tests of the code are those of what is admitted.
  admitted :
      enabled r.policy request.version ≡ true
      → Matched
      → (request.stateless_envelope ≡ false → method ≢ "server/discover")
      → (str_eq request.version stateless
          && not (str_eq method "tools/list")
          && not (str_eq method "tools/call"))
        ≡ false
      → Admitted
  admitted on (inl (envelope, version)) other b = (
    on,
    inl (
      envelope,
      version,
      elim (Bool-cases (str_eq method "tools/list")) [
        | inl e ↦ inl ((eq_iff method "tools/list").0 e)
        | inr e ↦
            let versions = (eq_iff request.version stateless).1 version in
            inr ((eq_iff method "tools/call").0 (ground (arith, versions, e, b)))
      ],
    ),
  )
  admitted on (inr (envelope, version)) other b = (on, inr (envelope, version, other envelope))

  dispatch_enabled-Dispatched :
      enabled r.policy request.version ≡ true
      → Matched
      → (request.stateless_envelope ≡ false → method ≢ "server/discover")
      → Dispatched (dispatch_enabled r request method w)
  unfolding dispatch_enabled
  dispatch_enabled-Dispatched on matched other = by_discover _ refl
    where
      by_method :
          (b : Bool)
          → (str_eq request.version stateless
              && not (str_eq method "tools/list")
              && not (str_eq method "tools/call"))
            ≡ b
          → Dispatched (
              if b
              then (error not_found_error, w)
              else call_handler r request method w (find r.handlers method))
      by_method true e =
          kept
            (λ a. ground (
              arith,
              Admitted-known a,
              eq_iff request.version stateless,
              eq_iff method "tools/list",
              eq_iff method "tools/call",
              e,
            ))
            refl (λ _. (not_found_error, refl))
      by_method false e =
          call_handler-Dispatched (find r.handlers method) (admitted on matched other e) refl

      by_discover :
          (b : Bool)
          → (str_eq request.version stateless && str_eq method "server/discover") ≡ b
          → Dispatched (
              if b
              then (outcome_of (complete (discover_result r.policy) method r.name r.version), w)
              else if str_eq request.version stateless
                  && not (str_eq method "tools/list")
                  && not (str_eq method "tools/call")
              then (error not_found_error, w)
              else call_handler r request method w (find r.handlers method))
      by_discover true e =
          let same : method ≡ "server/discover" =
            ground (arith, eq_iff method "server/discover", e) in
          kept (λ a. Admitted-other a same) refl (λ different. absurd (different same))
      by_discover false e = by_method _ refl

  -- A request comes to the handler of its method exactly if its revision is enabled, its envelope
  -- is that of the revision, and the revision has the method and the router does not answer it
  -- itself; the world is then that of the handler, and in the session revision, or where the
  -- handler returns an error, the answer is that of the handler too; where there is no handler,
  -- the answer is an error. Otherwise the world stays as it is, and the answer is an error unless
  -- the method is server/discover.
  pub dispatch-Dispatched : Dispatched (dispatch_revision r request method w)
  unfolding dispatch_revision dispatch_enabled
  dispatch-Dispatched =
      Dispatched-if (str_eq method "server/discover" && not (enabled r.policy stateless)) _ _
        (λ b a. Admitted-other a (ground (arith, eq_iff method "server/discover", b)))
        λ h1.
          Dispatched-if (str_eq method "server/discover" && not request.stateless_envelope) _ _
            (λ b a. Admitted-other a (ground (arith, eq_iff method "server/discover", b)))
            λ h2.
              Dispatched-if (request.stateless_envelope && not (str_eq request.version stateless)) _
                _ (λ b a. ground (arith, Admitted-Matched a, eq_iff request.version stateless, b))
                λ h3.
                  Dispatched-if
                    (not request.stateless_envelope
                      && not (str_eq request.version protocol_version))
                    _ _
                    (λ b a.
                      ground
                        (arith, Admitted-Matched a, eq_iff request.version protocol_version, b))
                    λ h4.
                      Dispatched-if (not (enabled r.policy request.version)) _ _
                        (λ b a. ground (arith, a.0, b))
                        λ h5.
                          dispatch_enabled-Dispatched (ground (arith, h5)) (matched_tests h3 h4)
                            (λ off e. ground (arith, eq_iff method "server/discover", off, e, h2))
