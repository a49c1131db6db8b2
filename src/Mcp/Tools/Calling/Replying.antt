-- ===== src/Mcp/Tools/Calling/Replying.antt =====
-- CallHandler.Handle of internal/mcp/tools, with the system that runs it: it returns a result or an
-- error.
use flashgate_mcp.Base.{Option, none, some}
use flashgate_mcp.Base.Result.{Result, ok, err}
use flashgate_mcp.Json.{Json, Raw, Encoding}
use flashgate_mcp.Protocol.{RpcError}
use flashgate_mcp.Os.{Call, Reply, Os, ret, call, and_then}
use flashgate_mcp.Os.World.{World, ask, drive}
use flashgate_mcp.Mcp.Registry.{Registry, get}
use flashgate_mcp.Mcp.Router.{Outcome}
use flashgate_mcp.Mcp.Router.Replying.{Replies}
use flashgate_mcp.Mcp.Tools.Outcome.{Executed, done, refused, broken}
use flashgate_mcp.Mcp.Tools.Tool.{Tool}
use flashgate_mcp.Mcp.Tools.Calling.{
  CallParams, validate_call_params, or_internal, call_outcome, call_tool, call_validated,
  handle_call,
}

or_internal-Replies : (o : Option Json) → Replies (or_internal o)
unfolding or_internal
or_internal-Replies none = tt
or_internal-Replies (some v) = tt

call_outcome-Replies : (e : Encoding) (x : Executed) → Replies (call_outcome e x)
unfolding call_outcome
call_outcome-Replies e (done v) = or_internal-Replies _
call_outcome-Replies e (refused c) = or_internal-Replies _
call_outcome-Replies e broken = tt

-- What holds of what follows a tree of calls holds of the whole.
module _ {S : Type 0} (reply : (c : Call) → S → Reply c × S) where
  drive-map_Replies :
      (m : Os Executed) (f : Executed → Outcome) (w : World S)
      → ((x : Executed) → Replies (f x))
      → Replies (drive reply (and_then m (λ x. ret (f x))) w).0
  unfolding drive and_then
  drive-map_Replies (ret x) f w h = h x
  drive-map_Replies (call c k) f w h = drive-map_Replies (k (reply c w.state).0) f (ask reply c w) h

  module _ (e : Encoding) (registry : Registry Tool) where
    call_tool-Replies :
        (arguments : Json) (o : Option Tool) (w : World S)
        → Replies (drive reply (call_tool e arguments o) w).0
    unfolding drive call_tool
    call_tool-Replies arguments none w = tt
    call_tool-Replies arguments (some tool) w =
        drive-map_Replies (tool.execute arguments) (call_outcome e) w (call_outcome-Replies e)

    call_validated-Replies :
        (x : Result RpcError CallParams) (w : World S)
        → Replies (drive reply (call_validated e registry x) w).0
    unfolding drive call_validated
    call_validated-Replies (err x) w = tt
    call_validated-Replies (ok p) w = call_tool-Replies p.arguments (get registry p.name) w

    pub handle_call-Replies :
        (params : Option Raw) (w : World S)
        → Replies (drive reply (handle_call e registry params) w).0
    unfolding handle_call
    handle_call-Replies params w = call_validated-Replies (validate_call_params params) w
