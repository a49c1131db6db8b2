-- ===== src/Mcp/Tools/Tool.antt =====
-- tool.go and annotations.go of internal/mcp/tools, and `Tool` of internal/protocol/tools.go.
use flashgate_mcp.Base.{Bool, true, false, Option, List, [], ◌∷◌, String, str_eq, if◌then◌else◌}
use flashgate_mcp.Json.{Json, bool, string, object, Fields, end, field}
use flashgate_mcp.Os.{Os}
use flashgate_mcp.Mcp.Registry.{find}
use flashgate_mcp.Mcp.Tools.Outcome.{Executed}
use flashgate_mcp.Mcp.Tools.Schema.{Schema, schema_json}

pub record ToolAnnotations : Type 0 where
  pub read_only_hint : Bool
  pub destructive_hint : Bool
  pub idempotent_hint : Bool
  pub open_world_hint : Bool

hints : Bool → Bool → Bool → ToolAnnotations
hints read_only destructive idempotent = record {
  read_only_hint = read_only;
  destructive_hint = destructive;
  idempotent_hint = idempotent;
  open_world_hint = false;
}

filesystem_tool_annotation_matrix : List (String × ToolAnnotations)
unfolding hints
filesystem_tool_annotation_matrix =
    ("list_directory", hints true false true)
    ∷ ("read_file", hints true false true)
    ∷ ("get_path_info", hints true false true)
    ∷ ("write_file", hints false true false)
    ∷ ("create_directory", hints false false true)
    ∷ ("delete_path", hints false true true)
    ∷ ("copy_path", hints false true false)
    ∷ ("move_path", hints false true true)
    ∷ []

-- `filesystemToolAnnotations`; `none` is its panic.
unfoldable pub filesystem_tool_annotations : String → Option ToolAnnotations
unfolding filesystem_tool_annotation_matrix find
filesystem_tool_annotations name = find filesystem_tool_annotation_matrix name

-- What `Definition` is made of: the annotations go by the name.
pub record Tool : Type 0 where
  pub name : String
  pub title : String
  pub description : String
  pub input_schema : Schema
  pub output_schema : Schema
  pub execute : Json → Os Executed

annotations_json : ToolAnnotations → Json
annotations_json a = object (
    field "readOnlyHint" 0 (bool a.read_only_hint) (
      field "destructiveHint" 0 (bool a.destructive_hint) (
        field "idempotentHint" 0 (bool a.idempotent_hint)
          (field "openWorldHint" 0 (bool a.open_world_hint) end))))

-- A title that is empty is left out.
with_title : String → Fields → Fields
with_title title rest = if str_eq title "" then rest else field "title" 0 (string title) rest

-- `Tool` of the protocol as JSON, with these annotations. No output schema is empty.
unfoldable pub definition_json : Tool → ToolAnnotations → Json
unfolding annotations_json with_title
definition_json t a = object (
    field "name" 0 (string t.name) (
      with_title t.title (
        field "description" 0 (string t.description) (
          field "inputSchema" 0 (schema_json t.input_schema) (
            field "outputSchema" 0 (schema_json t.output_schema)
              (field "annotations" 0 (annotations_json a) end))))))
