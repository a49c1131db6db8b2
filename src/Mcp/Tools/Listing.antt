-- ===== src/Mcp/Tools/Listing.antt =====
-- tools_list.go of internal/mcp/tools: the definitions of the tools, in the order of the registry.
pub mod Answers
use flashgate_mcp.Base.{Bool, true, false, not, Option, none, some, List, [], ◌∷◌, if◌then◌else◌}
use flashgate_mcp.Json.{Json, array, object, Items, nil, cons, Fields, end, field, Raw}
use flashgate_mcp.Mcp.Registry.{Registry}
use flashgate_mcp.Mcp.Registry
use flashgate_mcp.Mcp.Router.{Outcome, result, error, panic, invalid_params_error}
use flashgate_mcp.Mcp.Tools.Arguments.{is_missing_null_or_object}
use flashgate_mcp.Mcp.Tools.Tool.{
  Tool, ToolAnnotations, filesystem_tool_annotations, definition_json,
}

-- `Definition`; `none` is the panic where a tool has no annotations.
definition_of : Tool → Option ToolAnnotations → Option Json
definition_of t none = none
definition_of t (some a) = some (definition_json t a)

with_definition : Option Json → Option Items → Option Items
with_definition (some d) (some ds) = some (cons d ds)
with_definition _ _ = none

unfoldable pub definitions : List Tool → Option Items
unfolding definition_of with_definition
definitions [] = some nil
definitions (t ∷ ts) =
    with_definition (definition_of t (filesystem_tool_annotations t.name)) (definitions ts)

list_outcome : Option Items → Outcome
list_outcome none = panic
list_outcome (some ds) = result (object (field "tools" 0 (array ds) end))

-- `ListHandler.Handle`
unfoldable pub handle_list : Registry Tool → Option Raw → Outcome
unfolding list_outcome
handle_list registry params =
    if not (is_missing_null_or_object params)
    then error invalid_params_error
    else list_outcome (definitions (Registry.list registry))
