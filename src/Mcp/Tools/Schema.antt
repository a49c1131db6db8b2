-- ===== src/Mcp/Tools/Schema.antt =====
-- output_schemas.go of internal/mcp/tools, and the schemas of arguments: the maps that the source
-- writes out, as a data type and as JSON.
use flashgate_mcp.Base.{ℕ, Bool, true, false, List, [], ◌∷◌, String, ◌==◌, if◌then◌else◌}
use flashgate_mcp.Json.{
  Json, bool, string, array, object, Items, nil, cons, Fields, end, field, count,
}

mutual
  pub data Schema : Type 0 where
    -- {"type":"string"}, "integer" and "boolean"
    text integer boolean : Schema
    -- {"const":…}
    constant : Bool → Schema
    -- {"type":"array","items":…}
    list_of : Schema → Schema
    -- `objectOutputSchema`: the properties, and the names of the required ones
    closed : Properties → List String → Schema
    -- {"type":"object","oneOf":[…,…]}
    one_of : Schema → Schema → Schema
    -- with a description, and with a minLength or a minimum where the number is not 0
    described : Schema → ℕ → String → Schema

  pub data Properties : Type 0 where
    no_more : Properties
    property : String → Schema → Properties → Properties

names_json : List String → Items
names_json [] = nil
names_json (n ∷ ns) = cons (string n) (names_json ns)

typed : String → Fields → Json
typed name rest = object (field "type" 0 (string name) rest)

required_fields : List String → Fields → Fields
unfolding names_json
required_fields [] rest = rest
required_fields (n ∷ ns) rest = field "required" 0 (array (names_json (n ∷ ns))) rest

-- The limit of a described string or integer, and the description.
limited : Schema → ℕ → String → Fields
limited text n d =
    if n == 0
    then field "description" 0 (string d) end
    else field "minLength" 0 (count n) (field "description" 0 (string d) end)
limited integer n d =
    if n == 0
    then field "description" 0 (string d) end
    else field "description" 0 (string d) (field "minimum" 0 (count n) end)
limited _ n d = field "description" 0 (string d) end

simple_name : Schema → String
simple_name text = "string"
simple_name integer = "integer"
simple_name boolean = "boolean"
simple_name _ = "object"

mutual
  unfolding typed required_fields limited simple_name

  pub schema_json : Schema → Json
  schema_json text = typed "string" end
  schema_json integer = typed "integer" end
  schema_json boolean = typed "boolean" end
  schema_json (constant b) = object (field "const" 0 (bool b) end)
  schema_json (list_of s) = typed "array" (field "items" 0 (schema_json s) end)
  schema_json (closed ps names) = typed "object" (
      field "properties" 0 (object (properties_json ps))
        (required_fields names (field "additionalProperties" 0 (bool false) end)))
  schema_json (one_of s t) =
      typed "object" (field "oneOf" 0 (array (cons (schema_json s) (cons (schema_json t) nil))) end)
  schema_json (described s n d) = typed (simple_name s) (limited s n d)

  properties_json : Properties → Fields
  properties_json no_more = end
  properties_json (property name s ps) = field name 0 (schema_json s) (properties_json ps)

-- `filesystemOutputSchema`, by tool.
abbrev pub entry_schema : Schema
entry_schema =
    closed (property "name" text (property "isDir" boolean (property "size" integer no_more)))
      ("name" ∷ "isDir" ∷ "size" ∷ [])

abbrev pub list_directory_output : Schema
list_directory_output = closed (property "entries" (list_of entry_schema) no_more) ("entries" ∷ [])

abbrev pub read_file_output : Schema
read_file_output =
    closed (property "content" text (property "size" integer no_more)) ("content" ∷ "size" ∷ [])

abbrev pub get_path_info_output : Schema
get_path_info_output =
    one_of
      (closed (property "path" text (property "exists" (constant false) no_more))
        ("path" ∷ "exists" ∷ []))
      (closed
        (property "path" text (
          property "exists" (constant true)
            (property "name" text (property "isDir" boolean (property "size" integer no_more)))))
        ("path" ∷ "exists" ∷ "name" ∷ "isDir" ∷ "size" ∷ []))

abbrev pub write_file_output : Schema
write_file_output =
    closed (property "path" text (property "size" integer (property "written" boolean no_more)))
      ("path" ∷ "size" ∷ "written" ∷ [])

abbrev pub create_directory_output : Schema
create_directory_output =
    closed (property "path" text (property "created" boolean no_more)) ("path" ∷ "created" ∷ [])

abbrev pub delete_path_output : Schema
delete_path_output =
    closed (property "path" text (property "deleted" boolean no_more)) ("path" ∷ "deleted" ∷ [])

abbrev pub copy_path_output : Schema
copy_path_output =
    closed (property "source" text (property "target" text (property "copied" boolean no_more)))
      ("source" ∷ "target" ∷ "copied" ∷ [])

abbrev pub move_path_output : Schema
move_path_output =
    closed (property "source" text (property "target" text (property "moved" boolean no_more)))
      ("source" ∷ "target" ∷ "moved" ∷ [])
