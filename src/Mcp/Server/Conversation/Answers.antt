-- ===== src/Mcp/Server/Conversation/Answers.antt =====
-- Run of internal/mcp/server: each message that is no notification is answered.
use flashgate_mcp.Base.{ℕ, ◌≡◌, false, Option, List, [], ◌∷◌, ◌++◌}
use flashgate_mcp.Base.Result.{Result, ok}
use flashgate_mcp.Json.{Json}
use flashgate_mcp.Protocol.{Response}
use flashgate_mcp.Mcp.Validation.{ValidatedRequest, validate_request_message}
use flashgate_mcp.Mcp.Router.{Router}
use flashgate_mcp.Mcp.Server.{Server}

module _ {W : Type 0} (router : Router W) (decode : List ℕ → Option Json)
    (encode : Response → List ℕ) where
  -- Every message is answered that is no notification.
  abbrev pub Expects : ℕ → List ℕ → Type 0
  Expects a m =
      (request : ValidatedRequest)
      → validate_request_message (decode (m ++ b'\n' ∷ [])) a ≡ ok request
      → request.notification ≡ false
