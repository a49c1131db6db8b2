-- ===== src/Mcp/Tools/Reading.antt =====
-- tool_list_directory.go, tool_read_file.go and tool_get_path_info.go of internal/mcp/tools.
pub mod Behaviour
use flashgate_mcp.Base.{
  ℕ, Bool, true, false, not, Option, none, some, List, [], ◌∷◌, ◌==◌, ltb, length, if◌then◌else◌,
  String, Text,
}
use flashgate_mcp.Base.Integer.{ℤ, pos, negsuc}
use flashgate_mcp.Errors.{Error, Answer, ok, err, is_not_found}
use flashgate_mcp.Os.{Os, ret, and_then}
use flashgate_mcp.Filepath.{dot}
use flashgate_mcp.Json.{
  Json, bool, string, array, object, Items, nil, cons, Fields, end, field, count, Encoding,
}
use flashgate_mcp.Fs.Types.{LocalFileSystem, Entry, Metadata}
use flashgate_mcp.Fs.Reading.{list, read, stat}
use flashgate_mcp.Mcp.Tools.Outcome.{
  Executed, done, refused, invalid_arguments, map_filesystem_error,
}
use flashgate_mcp.Mcp.Tools.Arguments.{
  decode_strict, is_non_blank, PathArguments, ListArguments, ReadArguments, set_path, set_list,
  set_read, no_path, no_list, no_read,
}
use flashgate_mcp.Mcp.Tools.Schema.{
  Schema, text, integer, closed, described, property, no_more, list_directory_output,
  read_file_output, get_path_info_output,
}
use flashgate_mcp.Mcp.Tools.Tool.{Tool}

module _ (e : Encoding) (f : LocalFileSystem) where
  entry_json : Entry → Json
  entry_json entry = object (
      field "name" 0 (string (e.text_of entry.name))
        (field "isDir" 0 (bool entry.is_dir) (field "size" 0 (count entry.size) end)))

  entries_json : List Entry → Items
  entries_json [] = nil
  entries_json (entry ∷ entries) = cons (entry_json entry) (entries_json entries)

  list_result : Answer (List Entry) → Executed
  unfolding entries_json entry_json
  list_result (ok entries) = done (object (field "entries" 0 (array (entries_json entries)) end))
  list_result (err x) = map_filesystem_error x

  list_at : Text → Os Executed
  unfolding list_result
  list_at path = and_then (list f path) (λ r. ret (list_result r))

  -- "." where the path is left out.
  list_path : Option String → Os Executed
  unfolding list_at
  list_path none = list_at dot
  list_path (some path) =
      if not (is_non_blank path) then ret (refused invalid_arguments) else list_at (e.bytes_of path)

  list_decoded : Option ListArguments → Os Executed
  unfolding list_path
  list_decoded none = ret (refused invalid_arguments)
  list_decoded (some a) = list_path a.path

  execute_list_directory : Json → Os Executed
  unfolding list_decoded
  execute_list_directory arguments = list_decoded (decode_strict set_list no_list arguments)

  unfoldable pub list_directory_tool : Tool
  unfolding execute_list_directory
  list_directory_tool = record {
    name = "list_directory";
    title = "List Directory";
    description = "Lists files and directories below the configured filesystem root.";
    input_schema =
        closed
          (property "path"
            (described text 1
              "Relative directory path below the configured filesystem root. Defaults to '.' when omitted.")
            no_more)
          [];
    output_schema = list_directory_output;
    execute = execute_list_directory;
  }

  -- The number of bytes that may be read: no more than the server's, and `none` where the one
  -- that is asked for is not positive.
  read_limit : ℕ → Option ℤ → Option ℕ
  read_limit server_max none = some server_max
  read_limit server_max (some (pos n)) =
      if n == 0 then none else some (if ltb server_max n then server_max else n)
  read_limit server_max (some (negsuc n)) = none

  read_result : Answer (List ℕ) → Executed
  read_result (ok content) = done (
      object (
        field "content" 0 (string (e.text_of content))
          (field "size" 0 (count (length content)) end)))
  read_result (err x) = map_filesystem_error x

  read_within : String → Option ℕ → Os Executed
  unfolding read_result
  read_within path none = ret (refused invalid_arguments)
  read_within path (some max_bytes) =
      and_then (read f (e.bytes_of path) max_bytes) (λ r. ret (read_result r))

  read_decoded : ℕ → Option ReadArguments → Os Executed
  unfolding read_limit read_within
  read_decoded server_max none = ret (refused invalid_arguments)
  read_decoded server_max (some a) =
      if not (is_non_blank a.path)
      then ret (refused invalid_arguments)
      else read_within a.path (read_limit server_max a.max_bytes)

  execute_read_file : ℕ → Json → Os Executed
  unfolding read_decoded
  execute_read_file server_max arguments =
      read_decoded server_max (decode_strict set_read no_read arguments)

  unfoldable pub read_file_tool : ℕ → Tool
  unfolding execute_read_file
  read_file_tool server_max = record {
    name = "read_file";
    title = "Read File";
    description = "Reads a text file below the configured filesystem root.";
    input_schema =
        closed
          (property "path"
            (described text 1 "Relative file path below the configured filesystem root.")
            (property "maxBytes"
              (described integer 1
                "Maximum number of bytes to read. Defaults to the configured maximum file size.")
              no_more))
          ("path" ∷ []);
    output_schema = read_file_output;
    execute = execute_read_file server_max;
  }

  missing : String → Json
  missing path = object (field "path" 0 (string path) (field "exists" 0 (bool false) end))

  -- A path that is not there is a result, and no error.
  info_result : String → Answer Metadata → Executed
  unfolding missing
  info_result path (ok m) = done (
      object (
        field "path" 0 (string path) (
          field "exists" 0 (bool true) (
            field "name" 0 (string (e.text_of m.name))
              (field "isDir" 0 (bool m.is_dir) (field "size" 0 (count m.size) end))))))
  info_result path (err x) = if is_not_found x then done (missing path) else map_filesystem_error x

  info_decoded : Option PathArguments → Os Executed
  unfolding info_result
  info_decoded none = ret (refused invalid_arguments)
  info_decoded (some a) =
      if not (is_non_blank a.path)
      then ret (refused invalid_arguments)
      else and_then (stat f (e.bytes_of a.path)) (λ r. ret (info_result a.path r))

  execute_get_path_info : Json → Os Executed
  unfolding info_decoded
  execute_get_path_info arguments = info_decoded (decode_strict set_path no_path arguments)

  unfoldable pub get_path_info_tool : Tool
  unfolding execute_get_path_info
  get_path_info_tool = record {
    name = "get_path_info";
    title = "Get Path Info";
    description =
        "Returns existence and metadata for a file or directory below the configured filesystem root.";
    input_schema =
        closed
          (property "path"
            (described text 1
              "Relative file or directory path below the configured filesystem root.")
            no_more)
          ("path" ∷ []);
    output_schema = get_path_info_output;
    execute = execute_get_path_info;
  }
