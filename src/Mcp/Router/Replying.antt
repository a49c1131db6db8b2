-- ===== src/Mcp/Router/Replying.antt =====
-- DispatchRevision of internal/mcp/router, for handlers that return a result or an error.
use flashgate_mcp.Base.{
  ◌≡◌, refl, Bool, true, false, not, ◌&&◌, Option, none, some, String, str_eq, if◌then◌else◌,
}
use flashgate_mcp.Base.Result.{Result, ok, err}
use flashgate_mcp.Json.{Json, Raw}
use flashgate_mcp.Protocol.{RpcError, protocol_version}
use flashgate_mcp.Mcp.Registry.{find}
use flashgate_mcp.Mcp.Registry.Every.{Every, find-Every}
use flashgate_mcp.Mcp.Revision.{Request, enabled, stateless, complete, discover_result}
use flashgate_mcp.Mcp.Router.{
  Outcome, result, error, nothing, panic, Handler, Router, outcome_of, completed_outcome,
  call_handler, dispatch_enabled, dispatch_revision,
}

-- A result, an error or a panic.
abbrev pub Replies : Outcome → Type 0
Replies nothing = ⊥
Replies _ = Unit

-- A handler that does not return nil for both.
abbrev pub Replying : {W : Type 0} → Handler W → Type 0
Replying {W} h = (params : Option Raw) (w : W) → Replies (h params w).0

outcome_of-Replies : (x : Result RpcError Json) → Replies (outcome_of x)
unfolding outcome_of
outcome_of-Replies (ok v) = tt
outcome_of-Replies (err e) = tt

module _ {W : Type 0} where
  Replies-if :
      (b : Bool) (x y : Outcome × W) → Replies x.0 → Replies y.0 → Replies (if b then x else y).0
  Replies-if true x y h k = h
  Replies-if false x y h k = k

  module _ (r : Router W) (hr : Every Replying r.handlers) (request : Request)
      (method : String) where
    completed_outcome-Replies :
        (x : Outcome × W) → Replies x.0 → Replies (completed_outcome r request method x).0
    unfolding completed_outcome
    completed_outcome-Replies (result v, w) h =
        Replies-if (str_eq request.version protocol_version) (result v, w)
          (outcome_of (complete v method r.name r.version), w) tt (outcome_of-Replies _)
    completed_outcome-Replies (nothing, w) h = absurd h
    completed_outcome-Replies (error e, w) h = tt
    completed_outcome-Replies (panic, w) h = tt

    call_handler-Replies :
        (w : W) (o : Option (Handler W))
        → find r.handlers method ≡ o
        → Replies (call_handler r request method w o).0
    unfolding call_handler
    call_handler-Replies w none e = tt
    call_handler-Replies w (some handler) e =
        completed_outcome-Replies (handler request.params w)
          (find-Every Replying r.handlers method handler hr e request.params w)

    -- Where no handler returns nil for both, the router does not either.
    pub dispatch_revision-Replies : (w : W) → Replies (dispatch_revision r request method w).0
    unfolding dispatch_revision dispatch_enabled
    dispatch_revision-Replies w =
        Replies-if (str_eq method "server/discover" && not (enabled r.policy stateless)) _ _ tt (
          Replies-if (str_eq method "server/discover" && not request.stateless_envelope) _ _ tt (
            Replies-if (request.stateless_envelope && not (str_eq request.version stateless)) _ _ tt
              (Replies-if
                (not request.stateless_envelope && not (str_eq request.version protocol_version)) _
                _ tt
                (Replies-if (not (enabled r.policy request.version)) _ _ tt (
                  Replies-if (str_eq request.version stateless && str_eq method "server/discover") _
                    _ (outcome_of-Replies (complete (discover_result r.policy) method _ _))
                    (Replies-if
                      (str_eq request.version stateless
                        && not (str_eq method "tools/list")
                        && not (str_eq method "tools/call"))
                      _ _ tt (call_handler-Replies w (find r.handlers method) refl)))))))
