-- ===== src/Mcp/Router/Tests.antt =====
-- Examples for the router.
use flashgate_mcp.Base.{ℕ, suc, refl, true, false, none, [], ◌∷◌}
use flashgate_mcp.Json.{null}
use flashgate_mcp.Mcp.Revision.{Request, legacy, stateless, production_policy}
use flashgate_mcp.Mcp.Router.{Router, Handler, result, dispatch_revision}
use flashgate_mcp.Mcp.Router.Laws.{Refused, dispatch-disabled}
use flashgate_mcp.Mcp.Router.Admission.{Dispatched, dispatch-Dispatched}

-- A handler that counts its calls.
abbrev counting : Handler ℕ
counting p n = (result null, suc n)

abbrev router : Router ℕ
router = record {
  handlers = ("ping", counting) ∷ [];
  policy = record { legacy_enabled = true; stateless_enabled = false };
  name = "flashgate";
  version = "1";
}

abbrev modern : Request
modern = record { version = stateless; params = none; stateless_envelope = true; extensions = [] }

dispatch-disabled_example :
    Refused router modern "ping" 3 (dispatch_revision router modern "ping" 3)
unfolding flashgate_mcp.Mcp.Revision.enabled
dispatch-disabled_example = dispatch-disabled router modern "ping" 3 refl

dispatch-Dispatched_example :
    Dispatched router (legacy none) "ping" 3 (dispatch_revision router (legacy none) "ping" 3)
dispatch-Dispatched_example = dispatch-Dispatched router (legacy none) "ping" 3
