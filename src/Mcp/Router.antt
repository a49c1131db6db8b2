-- ===== src/Mcp/Router.antt =====
-- internal/mcp/router/router.go: which handler answers a method, under which revision. The
-- handlers act on a world of their own, the file system among it.
pub mod Admission
pub mod Laws
pub mod Preservation
pub mod Replying
mod Tests
use flashgate_mcp.Base.{
  Bool, true, false, not, ◌&&◌, ◌||◌, Option, none, some, List, [], ◌∷◌, String, str_eq,
  if◌then◌else◌,
}
use flashgate_mcp.Base.Result.{Result, ok, err}
use flashgate_mcp.Json.{Json, null, Raw}
use flashgate_mcp.Protocol.{RpcError, method_not_found, invalid_params, protocol_version}
use flashgate_mcp.Mcp.Registry.{find, assign}
use flashgate_mcp.Mcp.Revision.{
  Policy, Request, enabled, stateless, unsupported, complete, discover_result, production_policy,
}

-- What a handler comes to: a result, an error, neither where both that it returns are nil, or a
-- panic, which is recovered by the server.
pub data Outcome : Type 0 where
  result : Json → Outcome
  error : RpcError → Outcome
  nothing : Outcome
  panic : Outcome

abbrev pub Handler : Type 0 → Type 0
Handler W = Option Raw → W → Outcome × W

pub record Router (W : Type 0) : Type 0 where
  pub handlers : List (String × Handler W)
  pub policy : Policy
  pub name : String
  pub version : String

abbrev pub not_found_error : RpcError
not_found_error = record { code = method_not_found; message = "method not found"; detail = none }

abbrev pub invalid_params_error : RpcError
invalid_params_error = record { code = invalid_params; message = "invalid params"; detail = none }

outcome_of : Result RpcError Json → Outcome
outcome_of (ok v) = result v
outcome_of (err e) = error e

module _ {W : Type 0} where
  unfoldable pub new_with_policy : String → String → Policy → Router W
  new_with_policy name version policy = record {
    handlers = [];
    policy = policy;
    name = name;
    version = version;
  }

  -- `New`
  pub new_router : Router W
  unfolding new_with_policy
  new_router = new_with_policy "flashgate" "0.0.0-dev" production_policy

  unfoldable pub register : Router W → String → Handler W → Router W
  register r method handler = record r { handlers = assign r.handlers method handler }

  -- A result of the stateless revision is completed; anything else is passed on.
  completed_outcome : Router W → Request → String → Outcome × W → Outcome × W
  unfolding outcome_of
  completed_outcome r request method (result v, w) =
      if str_eq request.version protocol_version
      then (result v, w)
      else (outcome_of (complete v method r.name r.version), w)
  completed_outcome r request method (nothing, w) =
      if str_eq request.version protocol_version
      then (nothing, w)
      else (outcome_of (complete null method r.name r.version), w)
  completed_outcome r request method (error e, w) = (error e, w)
  completed_outcome r request method (panic, w) = (panic, w)

  call_handler : Router W → Request → String → W → Option (Handler W) → Outcome × W
  unfolding completed_outcome
  call_handler r request method w none = (error not_found_error, w)
  call_handler r request method w (some handler) =
      completed_outcome r request method (handler request.params w)

  -- Behind the tests on the revision.
  dispatch_enabled : Router W → Request → String → W → Outcome × W
  unfolding call_handler outcome_of
  dispatch_enabled r request method w =
      if str_eq request.version stateless && str_eq method "server/discover"
      then (outcome_of (complete (discover_result r.policy) method r.name r.version), w)
      else if str_eq request.version stateless
          && not (str_eq method "tools/list")
          && not (str_eq method "tools/call")
      then (error not_found_error, w)
      else call_handler r request method w (find r.handlers method)

  pub dispatch_revision : Router W → Request → String → W → Outcome × W
  unfolding dispatch_enabled
  dispatch_revision r request method w =
      if str_eq method "server/discover" && not (enabled r.policy stateless)
      then (error not_found_error, w)
      else if str_eq method "server/discover" && not request.stateless_envelope
      then (error invalid_params_error, w)
      else if request.stateless_envelope && not (str_eq request.version stateless)
      then (error (unsupported request.version r.policy), w)
      else if not request.stateless_envelope && not (str_eq request.version protocol_version)
      then (error (unsupported request.version r.policy), w)
      else if not (enabled r.policy request.version)
      then (error (unsupported request.version r.policy), w)
      else dispatch_enabled r request method w
