-- ===== src/Mcp/Tools/Writing/Behaviour.antt =====
-- write_file, create_directory and delete_path of internal/mcp/tools: their calls and results.
use flashgate_mcp.Base.{refl, not, Option, none, some, List, Text}
use flashgate_mcp.Json.{Encoding}
use flashgate_mcp.Os.Rules.{Holds, Holds-answer, Holds-if}
use flashgate_mcp.Security.Lexical.{IsRooted}
use flashgate_mcp.Security.Confinement.{Confined}
use flashgate_mcp.Fs.Types.{LocalFileSystem}
use flashgate_mcp.Fs.Writing.Confinement.{write-Confined, mkdir-Confined, delete-Confined}
use flashgate_mcp.Mcp.Tools.Arguments.{
  PathArguments, WriteArguments, DeleteArguments, decode_strict, set_path, set_write, set_delete,
  no_path, no_write, no_delete, is_non_blank,
}
use flashgate_mcp.Mcp.Tools.Schema.{write_file_output, create_directory_output, delete_path_output}
use flashgate_mcp.Mcp.Tools.Writing.{
  write_result, write_decoded, execute_write_file, write_file_tool, create_result, create_decoded,
  execute_create_directory, create_directory_tool, delete_result, delete_decoded,
  execute_delete_path, delete_path_tool,
}
use flashgate_mcp.Mcp.Tools.Conformance.{conforms, Produces, map_filesystem_error-Produces, Behaves}

module _ (e : Encoding) (f : LocalFileSystem) (bs : List Text) (hf : IsRooted f.guard bs) where
  write_decoded-Confined :
      (a : Option WriteArguments)
      → Holds (Confined bs) (Produces write_file_output) (write_decoded e f a)
  unfolding write_decoded write_result conforms
  write_decoded-Confined none = tt
  write_decoded-Confined (some a) =
      Holds-if (Confined bs) (Produces write_file_output) (not (is_non_blank a.path)) _ _ (λ _. tt)
        λ _.
          Holds-answer (Confined bs) (Produces write_file_output) _
            (write_result e f a.path (e.bytes_of a.content))
            (write-Confined f bs hf (e.bytes_of a.path) (e.bytes_of a.content) a.overwrite)
            (λ r _. refl) (map_filesystem_error-Produces write_file_output)

  pub write_file_tool-Behaves : Behaves (Confined bs) (write_file_tool e f)
  unfolding write_file_tool execute_write_file
  write_file_tool-Behaves arguments =
      write_decoded-Confined (decode_strict set_write no_write arguments)

  create_decoded-Confined :
      (a : Option PathArguments)
      → Holds (Confined bs) (Produces create_directory_output) (create_decoded e f a)
  unfolding create_decoded create_result conforms
  create_decoded-Confined none = tt
  create_decoded-Confined (some a) =
      Holds-if (Confined bs) (Produces create_directory_output) (not (is_non_blank a.path)) _ _
        (λ _. tt)
        λ _.
          Holds-answer (Confined bs) (Produces create_directory_output) _ (create_result e f a.path)
            (mkdir-Confined f bs hf (e.bytes_of a.path)) (λ r _. refl)
            (map_filesystem_error-Produces create_directory_output)

  pub create_directory_tool-Behaves : Behaves (Confined bs) (create_directory_tool e f)
  unfolding create_directory_tool execute_create_directory
  create_directory_tool-Behaves arguments =
      create_decoded-Confined (decode_strict set_path no_path arguments)

  delete_decoded-Confined :
      (a : Option DeleteArguments)
      → Holds (Confined bs) (Produces delete_path_output) (delete_decoded e f a)
  unfolding delete_decoded delete_result conforms
  delete_decoded-Confined none = tt
  delete_decoded-Confined (some a) =
      Holds-if (Confined bs) (Produces delete_path_output) (not (is_non_blank a.path)) _ _ (λ _. tt)
        λ _.
          Holds-answer (Confined bs) (Produces delete_path_output) _ (delete_result e f a.path)
            (delete-Confined f bs hf (e.bytes_of a.path) a.recursive) (λ r _. refl)
            (map_filesystem_error-Produces delete_path_output)

  pub delete_path_tool-Behaves : Behaves (Confined bs) (delete_path_tool e f)
  unfolding delete_path_tool execute_delete_path
  delete_path_tool-Behaves arguments =
      delete_decoded-Confined (decode_strict set_delete no_delete arguments)
