-- ===== src/Mcp/Tools/Writing.antt =====
-- tool_write_file.go, tool_create_directory.go and tool_delete_path.go of internal/mcp/tools.
pub mod Behaviour
use flashgate_mcp.Base.{
  ℕ, Bool, true, false, not, Option, none, some, List, [], ◌∷◌, length, if◌then◌else◌, String, Text,
}
use flashgate_mcp.Errors.{Error, Answer, ok, err}
use flashgate_mcp.Os.{Os, ret, and_then}
use flashgate_mcp.Json.{Json, bool, string, object, Fields, end, field, count, Encoding}
use flashgate_mcp.Fs.Types.{LocalFileSystem}
use flashgate_mcp.Fs.Writing.{write, mkdir, delete}
use flashgate_mcp.Mcp.Tools.Outcome.{
  Executed, done, refused, invalid_arguments, map_filesystem_error,
}
use flashgate_mcp.Mcp.Tools.Arguments.{
  decode_strict, is_non_blank, PathArguments, WriteArguments, DeleteArguments, set_path, set_write,
  set_delete, no_path, no_write, no_delete,
}
use flashgate_mcp.Mcp.Tools.Schema.{
  Schema, text, boolean, closed, described, property, no_more, write_file_output,
  create_directory_output, delete_path_output,
}
use flashgate_mcp.Mcp.Tools.Tool.{Tool}

module _ (e : Encoding) (f : LocalFileSystem) where
  write_result : String → Text → Answer Unit → Executed
  write_result path content (ok _) = done (
      object (
        field "path" 0 (string path)
          (field "size" 0 (count (length content)) (field "written" 0 (bool true) end))))
  write_result path content (err x) = map_filesystem_error x

  write_decoded : Option WriteArguments → Os Executed
  unfolding write_result
  write_decoded none = ret (refused invalid_arguments)
  write_decoded (some a) =
      let content = e.bytes_of a.content in
      if not (is_non_blank a.path)
      then ret (refused invalid_arguments)
      else and_then (write f (e.bytes_of a.path) content a.overwrite)
          (λ r. ret (write_result a.path content r))

  execute_write_file : Json → Os Executed
  unfolding write_decoded
  execute_write_file arguments = write_decoded (decode_strict set_write no_write arguments)

  unfoldable pub write_file_tool : Tool
  unfolding execute_write_file
  write_file_tool = record {
    name = "write_file";
    title = "Write File";
    description = "Writes a text file below the configured filesystem root.";
    input_schema =
        closed
          (property "path"
            (described text 1 "Relative file path below the configured filesystem root.")
            (property "content"
              (described text 0 "Text content to write. An empty string is allowed.")
              (property "overwrite"
                (described boolean 0
                  "Whether an existing file may be overwritten. Defaults to false.")
                no_more)))
          ("path" ∷ []);
    output_schema = write_file_output;
    execute = execute_write_file;
  }

  create_result : String → Answer Bool → Executed
  create_result path (ok created) =
      done (object (field "path" 0 (string path) (field "created" 0 (bool created) end)))
  create_result path (err x) = map_filesystem_error x

  create_decoded : Option PathArguments → Os Executed
  unfolding create_result
  create_decoded none = ret (refused invalid_arguments)
  create_decoded (some a) =
      if not (is_non_blank a.path)
      then ret (refused invalid_arguments)
      else and_then (mkdir f (e.bytes_of a.path)) (λ r. ret (create_result a.path r))

  execute_create_directory : Json → Os Executed
  unfolding create_decoded
  execute_create_directory arguments = create_decoded (decode_strict set_path no_path arguments)

  unfoldable pub create_directory_tool : Tool
  unfolding execute_create_directory
  create_directory_tool = record {
    name = "create_directory";
    title = "Create Directory";
    description =
        "Creates a directory and any missing parents below the configured filesystem root.";
    input_schema =
        closed
          (property "path"
            (described text 1 "Relative directory path below the configured filesystem root.")
            no_more)
          ("path" ∷ []);
    output_schema = create_directory_output;
    execute = execute_create_directory;
  }

  delete_result : String → Answer Unit → Executed
  delete_result path (ok _) =
      done (object (field "path" 0 (string path) (field "deleted" 0 (bool true) end)))
  delete_result path (err x) = map_filesystem_error x

  delete_decoded : Option DeleteArguments → Os Executed
  unfolding delete_result
  delete_decoded none = ret (refused invalid_arguments)
  delete_decoded (some a) =
      if not (is_non_blank a.path)
      then ret (refused invalid_arguments)
      else and_then (delete f (e.bytes_of a.path) a.recursive) (λ r. ret (delete_result a.path r))

  execute_delete_path : Json → Os Executed
  unfolding delete_decoded
  execute_delete_path arguments = delete_decoded (decode_strict set_delete no_delete arguments)

  unfoldable pub delete_path_tool : Tool
  unfolding execute_delete_path
  delete_path_tool = record {
    name = "delete_path";
    title = "Delete Path";
    description = "Deletes a file or directory below the configured filesystem root.";
    input_schema =
        closed
          (property "path"
            (described text 1
              "Relative file or directory path below the configured filesystem root.")
            (property "recursive"
              (described boolean 0
                "Whether a non-empty directory may be deleted recursively. Defaults to false.")
              no_more))
          ("path" ∷ []);
    output_schema = delete_path_output;
    execute = execute_delete_path;
  }
