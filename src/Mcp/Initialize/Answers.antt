-- ===== src/Mcp/Initialize/Answers.antt =====
-- The initialize handler: it returns a result or an error.
use flashgate_mcp.Base.{Bool, true, false, Option, none, some, String, str_eq, if◌then◌else◌}
use flashgate_mcp.Json.{Raw}
use flashgate_mcp.Mcp.Router.{result, error}
use flashgate_mcp.Mcp.Router.Replying.{Replies}
use flashgate_mcp.Mcp.Initialize.{
  RequestParams, read_params, refused_params, initialize_result, handle_read, handle_initialize,
}

pub handle_initialize-Replies :
    (name version : String) (params : Option Raw) → Replies (handle_initialize name version params)
unfolding handle_initialize handle_read
handle_initialize-Replies name version params = by_params (read_params params)
  where
    by_test :
        (b : Bool)
        → Replies (
            if b
            then error (refused_params "missing protocol version")
            else result (initialize_result name version))
    by_test true = tt
    by_test false = tt

    by_params : (o : Option RequestParams) → Replies (handle_read name version o)
    by_params none = tt
    by_params (some p) = by_test (str_eq p.protocol_version "")
