-- ===== src/Command/Boot/Answers.antt =====
-- The router of cmd/server: what the requests that it serves are answered with.
use flashgate_mcp.Base.{ℕ, Option, List, String, []}
use flashgate_mcp.Json.{Json, Encoding}
use flashgate_mcp.Protocol.{Response}
use flashgate_mcp.Os.{Call, Reply}
use flashgate_mcp.Os.World.{World}
use flashgate_mcp.Fs.Types.{LocalFileSystem}
use flashgate_mcp.Config.{Config}
use flashgate_mcp.Mcp.Registry.{Registry}
use flashgate_mcp.Mcp.Registry.Every.{Every, assign-Every}
use flashgate_mcp.Mcp.Validation.{ValidatedRequest, or_null}
use flashgate_mcp.Mcp.Router.{new_with_policy, register}
use flashgate_mcp.Mcp.Router.Replying.{Replying}
use flashgate_mcp.Mcp.Initialize.Answers.{handle_initialize-Replies}
use flashgate_mcp.Mcp.Tools.Tool.{Tool}
use flashgate_mcp.Mcp.Tools.Listing.Answers.{handle_list-Replies}
use flashgate_mcp.Mcp.Tools.Calling.Replying.{handle_call-Replies}
use flashgate_mcp.Mcp.Server.{handle_request}
use flashgate_mcp.Mcp.Server.Replies.{Answers, handle_request-Answers}
use flashgate_mcp.Command.Boot.{create_router, router_of}

module _ {S : Type 0} (reply : (c : Call) → S → Reply c × S) where
  module _ (e : Encoding) (registry : Registry Tool) where
    create_router-Replying :
        (name version : String)
        → Every Replying (create_router reply e name version registry).handlers
    unfolding create_router register new_with_policy
    create_router-Replying name version =
        assign-Every Replying _ _ _
          (assign-Every Replying _ _ _
            (assign-Every Replying [] _ _ tt
              (λ params w. handle_initialize-Replies name version params))
            (λ params w. handle_list-Replies registry params))
          (λ params w. handle_call-Replies reply e registry params w)

  -- With the handlers of the server, whatever the request and the replies of the system are, a
  -- request is answered by one response, which has the id of the request and carries either a
  -- result or an error.
  pub router_of-Answers :
      (e : Encoding) (decode : List ℕ → Option Json) (encode : Response → List ℕ) (c : Config)
      (f : LocalFileSystem) (request : ValidatedRequest) (w : World S)
      → Answers
          (or_null request.id)
          (handle_request (router_of reply e c f) decode encode request w).0
  unfolding router_of
  router_of-Answers e decode encode c f request w =
      handle_request-Answers (router_of reply e c f) decode encode (create_router-Replying e _ _ _)
        request w
