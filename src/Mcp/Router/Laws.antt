-- ===== src/Mcp/Router/Laws.antt =====
-- DispatchRevision of internal/mcp/router: which requests come to a handler.
use flashgate_mcp.Base.{
  Bool, true, false, not, ◌&&◌, ◌≡◌, ◌≢◌, refl, arith, String, str_eq, eq_iff, if◌then◌else◌, ◌⊎◌,
}
use flashgate_mcp.Protocol.{RpcError, protocol_version}
use flashgate_mcp.Mcp.Revision.{Request, enabled, stateless}
use flashgate_mcp.Mcp.Router.{Outcome, error, Router, dispatch_revision}

module _ {W : Type 0} (r : Router W) (request : Request) (method : String) (w : W) where
  -- An error, with the world as it was.
  abbrev pub Refused : Outcome × W → Type 0
  Refused x = (e : RpcError) × (x ≡ (error e, w))

  Refused-if :
      (b : Bool) (e : RpcError) (rest : Outcome × W)
      → (b ≡ false → Refused rest)
      → Refused (if b then (error e, w) else rest)
  Refused-if true e rest h = (e, refl)
  Refused-if false e rest h = h refl

  -- A request whose revision is not enabled reaches no handler: the world stays as it is, and the
  -- answer is an error.
  pub dispatch-disabled :
      enabled r.policy request.version ≡ false → Refused (dispatch_revision r request method w)
  unfolding dispatch_revision
  dispatch-disabled h =
      Refused-if (str_eq method "server/discover" && not (enabled r.policy stateless)) _ _ λ _.
        Refused-if (str_eq method "server/discover" && not request.stateless_envelope) _ _ λ _.
          Refused-if (request.stateless_envelope && not (str_eq request.version stateless)) _ _ λ a.
            Refused-if
              (not request.stateless_envelope && not (str_eq request.version protocol_version)) _ _
              λ b.
                Refused-if (not (enabled r.policy request.version)) _ _ λ on. absurd (ground arith)

  -- A request with a stateless envelope and another version, or without one and another version
  -- than the session one, reaches no handler: the world stays as it is, and the answer is an
  -- error.
  pub dispatch-mixed :
      (request.stateless_envelope ≡ true) × (request.version ≢ stateless)
        ⊎ (request.stateless_envelope ≡ false) × (request.version ≢ protocol_version)
      → Refused (dispatch_revision r request method w)
  unfolding dispatch_revision
  dispatch-mixed h =
      Refused-if (str_eq method "server/discover" && not (enabled r.policy stateless)) _ _ λ _.
        Refused-if (str_eq method "server/discover" && not request.stateless_envelope) _ _ λ _.
          Refused-if (request.stateless_envelope && not (str_eq request.version stateless)) _ _ λ a.
            Refused-if
              (not request.stateless_envelope && not (str_eq request.version protocol_version)) _ _
              λ b. absurd (
                ground (
                  arith,
                  eq_iff request.version stateless,
                  eq_iff request.version protocol_version,
                ))
