-- ===== src/Mcp/Router/Preservation.antt =====
-- DispatchRevision of internal/mcp/router: what the handlers keep true of their world stays true.
use flashgate_mcp.Base.{
  ◌≡◌, refl, Bool, true, false, not, ◌&&◌, Option, none, some, String, str_eq, if◌then◌else◌,
}
use flashgate_mcp.Json.{Raw}
use flashgate_mcp.Protocol.{protocol_version}
use flashgate_mcp.Mcp.Registry.{find}
use flashgate_mcp.Mcp.Registry.Every.{Every, find-Every}
use flashgate_mcp.Mcp.Revision.{Request, enabled, stateless}
use flashgate_mcp.Mcp.Router.{
  Outcome, result, error, nothing, panic, Handler, Router, completed_outcome, call_handler,
  dispatch_enabled, dispatch_revision,
}

module _ {W : Type 0} (I : W → Type 0) where
  abbrev pub Preserves : Handler W → Type 0
  Preserves h = (params : Option Raw) (w : W) → I w → I (h params w).1

  if-preserves :
      (b : Bool) (x : Outcome) (w : W) (t : Outcome × W)
      → I w
      → I t.1
      → I (if b then (x, w) else t).1
  if-preserves true x w t h k = h
  if-preserves false x w t h k = k

  module _ (r : Router W) (hr : Every Preserves r.handlers) where
    completed_outcome-preserves :
        (request : Request) (method : String) (o : Outcome × W)
        → I o.1
        → I (completed_outcome r request method o).1
    unfolding completed_outcome
    completed_outcome-preserves request method (result v, w) h =
        if-preserves (str_eq request.version protocol_version) _ w _ h h
    completed_outcome-preserves request method (nothing, w) h =
        if-preserves (str_eq request.version protocol_version) _ w _ h h
    completed_outcome-preserves request method (error e, w) h = h
    completed_outcome-preserves request method (panic, w) h = h

    call_handler-preserves :
        (request : Request) (method : String) (w : W) (o : Option (Handler W))
        → find r.handlers method ≡ o
        → I w
        → I (call_handler r request method w o).1
    unfolding call_handler
    call_handler-preserves request method w none e h = h
    call_handler-preserves request method w (some handler) e h =
        completed_outcome-preserves request method (handler request.params w)
          (find-Every Preserves r.handlers method handler hr e request.params w h)

    pub dispatch_revision-preserves :
        (request : Request) (method : String) (w : W)
        → I w
        → I (dispatch_revision r request method w).1
    unfolding dispatch_revision dispatch_enabled
    dispatch_revision-preserves request method w h =
        if-preserves (str_eq method "server/discover" && not (enabled r.policy stateless)) _ w _ h (
          if-preserves (str_eq method "server/discover" && not request.stateless_envelope) _ w _ h (
            if-preserves (request.stateless_envelope && not (str_eq request.version stateless)) _ w
              _ h
              (if-preserves
                (not request.stateless_envelope && not (str_eq request.version protocol_version)) _
                w _ h
                (if-preserves (not (enabled r.policy request.version)) _ w _ h (
                  if-preserves (str_eq request.version stateless && str_eq method "server/discover")
                    _ w _ h
                    (if-preserves
                      (str_eq request.version stateless
                        && not (str_eq method "tools/list")
                        && not (str_eq method "tools/call"))
                      _ w _ h
                      (call_handler-preserves request method w (find r.handlers method) refl
                        h)))))))
