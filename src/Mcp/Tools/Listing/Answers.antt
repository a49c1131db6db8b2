-- ===== src/Mcp/Tools/Listing/Answers.antt =====
-- ListHandler.Handle of internal/mcp/tools, where every tool has annotations.
use flashgate_mcp.Base.{
  Option, none, ◌≡◌, ◌≢◌, Bool, true, false, not, some, if◌then◌else◌, sym, ◌∙◌, ap,
}
use flashgate_mcp.Json.{Items, Raw}
use flashgate_mcp.Mcp.Registry.{Registry, list}
use flashgate_mcp.Mcp.Router.Replying.{Replies}
use flashgate_mcp.Mcp.Router.{result, error, panic, invalid_params_error}
use flashgate_mcp.Mcp.Tools.Arguments.{is_missing_null_or_object}
use flashgate_mcp.Mcp.Tools.Tool.{Tool}
use flashgate_mcp.Mcp.Tools.Listing.{definitions, list_outcome, handle_list}

pub handle_list-total :
    (r : Registry Tool) (params : Option Raw) (ds : Items)
    → definitions (list r) ≡ some ds
    → handle_list r params ≢ panic
unfolding handle_list list_outcome
handle_list-total r params ds h = by_test (not (is_missing_null_or_object params))
  where
    by_test :
        (b : Bool)
        → (if b then error invalid_params_error else list_outcome (definitions (list r))) ≢ panic
    by_test true e = absurd (cc)
    by_test false e = let same : result _ ≡ panic = sym (ap list_outcome h) ∙ e in absurd (cc)

list_outcome-Replies : (o : Option Items) → Replies (list_outcome o)
unfolding list_outcome
list_outcome-Replies none = tt
list_outcome-Replies (some ds) = tt

pub handle_list-Replies :
    (registry : Registry Tool) (params : Option Raw) → Replies (handle_list registry params)
unfolding handle_list
handle_list-Replies registry params = by_test (not (is_missing_null_or_object params))
  where
    by_test :
        (b : Bool)
        → Replies
            (if b then error invalid_params_error else list_outcome (definitions (list registry)))
    by_test true = tt
    by_test false = list_outcome-Replies (definitions (list registry))
