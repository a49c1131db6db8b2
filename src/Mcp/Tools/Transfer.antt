-- ===== src/Mcp/Tools/Transfer.antt =====
-- tool_copy_path.go and tool_move_path.go of internal/mcp/tools.
pub mod Behaviour
use flashgate_mcp.Base.{
  ℕ, Bool, true, false, not, ◌||◌, Option, none, some, List, [], ◌∷◌, if◌then◌else◌, String,
}
use flashgate_mcp.Errors.{Error, Answer, ok, err}
use flashgate_mcp.Os.{Os, ret, and_then}
use flashgate_mcp.Json.{Json, bool, string, object, Fields, end, field, Encoding}
use flashgate_mcp.Fs.Types.{LocalFileSystem}
use flashgate_mcp.Fs.Writing.{copy}
use flashgate_mcp.Fs.Moving.{move}
use flashgate_mcp.Mcp.Tools.Outcome.{
  Executed, done, refused, invalid_arguments, map_filesystem_error,
}
use flashgate_mcp.Mcp.Tools.Arguments.{
  decode_strict, is_non_blank, TransferArguments, set_transfer, no_transfer,
}
use flashgate_mcp.Mcp.Tools.Schema.{
  Schema, text, boolean, closed, described, property, no_more, copy_path_output, move_path_output,
}
use flashgate_mcp.Mcp.Tools.Tool.{Tool}

abbrev transfer_input : String → String → Schema
transfer_input source target =
    closed
      (property "source" (described text 1 source) (
        property "target" (described text 1 target) (
          property "overwrite"
            (described boolean 0
              "Whether an existing target may be overwritten. Defaults to false.")
            no_more)))
      ("source" ∷ "target" ∷ [])

module _ (e : Encoding) (f : LocalFileSystem) where
  copy_result : String → String → Answer Unit → Executed
  copy_result source target (ok _) = done (
      object (
        field "source" 0 (string source)
          (field "target" 0 (string target) (field "copied" 0 (bool true) end))))
  copy_result source target (err x) = map_filesystem_error x

  copy_decoded : Option TransferArguments → Os Executed
  unfolding copy_result
  copy_decoded none = ret (refused invalid_arguments)
  copy_decoded (some a) =
      if not (is_non_blank a.source) || not (is_non_blank a.target)
      then ret (refused invalid_arguments)
      else and_then (copy f (e.bytes_of a.source) (e.bytes_of a.target) a.overwrite)
          (λ r. ret (copy_result a.source a.target r))

  execute_copy_path : Json → Os Executed
  unfolding copy_decoded
  execute_copy_path arguments = copy_decoded (decode_strict set_transfer no_transfer arguments)

  unfoldable pub copy_path_tool : Tool
  unfolding execute_copy_path
  copy_path_tool = record {
    name = "copy_path";
    title = "Copy Path";
    description =
        "Copies a file below the configured filesystem root. Directory copy is not supported.";
    input_schema =
        transfer_input "Relative source file path below the configured filesystem root."
          "Relative target file path below the configured filesystem root.";
    output_schema = copy_path_output;
    execute = execute_copy_path;
  }

  move_result : String → String → Answer Unit → Executed
  move_result source target (ok _) = done (
      object (
        field "source" 0 (string source)
          (field "target" 0 (string target) (field "moved" 0 (bool true) end))))
  move_result source target (err x) = map_filesystem_error x

  move_decoded : Option TransferArguments → Os Executed
  unfolding move_result
  move_decoded none = ret (refused invalid_arguments)
  move_decoded (some a) =
      if not (is_non_blank a.source) || not (is_non_blank a.target)
      then ret (refused invalid_arguments)
      else and_then (move f (e.bytes_of a.source) (e.bytes_of a.target) a.overwrite)
          (λ r. ret (move_result a.source a.target r))

  execute_move_path : Json → Os Executed
  unfolding move_decoded
  execute_move_path arguments = move_decoded (decode_strict set_transfer no_transfer arguments)

  unfoldable pub move_path_tool : Tool
  unfolding execute_move_path
  move_path_tool = record {
    name = "move_path";
    title = "Move Path";
    description =
        "Moves or renames a file or directory on the same volume below the configured filesystem root.";
    input_schema =
        transfer_input
          "Relative source file or directory path below the configured filesystem root."
          "Relative target file or directory path below the configured filesystem root.";
    output_schema = move_path_output;
    execute = execute_move_path;
  }
