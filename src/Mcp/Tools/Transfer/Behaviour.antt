-- ===== src/Mcp/Tools/Transfer/Behaviour.antt =====
-- copy_path and move_path of internal/mcp/tools: their calls and results.
use flashgate_mcp.Base.{refl, not, ◌||◌, Option, none, some, List, Text}
use flashgate_mcp.Json.{Encoding}
use flashgate_mcp.Os.Rules.{Holds, Holds-answer, Holds-if}
use flashgate_mcp.Security.Lexical.{IsRooted}
use flashgate_mcp.Security.Confinement.{Confined}
use flashgate_mcp.Fs.Types.{LocalFileSystem}
use flashgate_mcp.Fs.Writing.Confinement.{copy-Confined}
use flashgate_mcp.Fs.Moving.Confinement.{move-Confined}
use flashgate_mcp.Mcp.Tools.Arguments.{
  TransferArguments, decode_strict, set_transfer, no_transfer, is_non_blank,
}
use flashgate_mcp.Mcp.Tools.Schema.{copy_path_output, move_path_output}
use flashgate_mcp.Mcp.Tools.Transfer.{
  copy_result, copy_decoded, execute_copy_path, copy_path_tool, move_result, move_decoded,
  execute_move_path, move_path_tool,
}
use flashgate_mcp.Mcp.Tools.Conformance.{conforms, Produces, map_filesystem_error-Produces, Behaves}

module _ (e : Encoding) (f : LocalFileSystem) (bs : List Text) (hf : IsRooted f.guard bs) where
  copy_decoded-Confined :
      (a : Option TransferArguments)
      → Holds (Confined bs) (Produces copy_path_output) (copy_decoded e f a)
  unfolding copy_decoded copy_result conforms
  copy_decoded-Confined none = tt
  copy_decoded-Confined (some a) =
      Holds-if (Confined bs) (Produces copy_path_output)
        (not (is_non_blank a.source) || not (is_non_blank a.target)) _ _ (λ _. tt)
        λ _.
          Holds-answer (Confined bs) (Produces copy_path_output) _
            (copy_result e f a.source a.target)
            (copy-Confined f bs hf (e.bytes_of a.source) (e.bytes_of a.target) a.overwrite)
            (λ r _. refl) (map_filesystem_error-Produces copy_path_output)

  pub copy_path_tool-Behaves : Behaves (Confined bs) (copy_path_tool e f)
  unfolding copy_path_tool execute_copy_path
  copy_path_tool-Behaves arguments =
      copy_decoded-Confined (decode_strict set_transfer no_transfer arguments)

  move_decoded-Confined :
      (a : Option TransferArguments)
      → Holds (Confined bs) (Produces move_path_output) (move_decoded e f a)
  unfolding move_decoded move_result conforms
  move_decoded-Confined none = tt
  move_decoded-Confined (some a) =
      Holds-if (Confined bs) (Produces move_path_output)
        (not (is_non_blank a.source) || not (is_non_blank a.target)) _ _ (λ _. tt)
        λ _.
          Holds-answer (Confined bs) (Produces move_path_output) _
            (move_result e f a.source a.target)
            (move-Confined f bs hf (e.bytes_of a.source) (e.bytes_of a.target) a.overwrite)
            (λ r _. refl) (map_filesystem_error-Produces move_path_output)

  pub move_path_tool-Behaves : Behaves (Confined bs) (move_path_tool e f)
  unfolding move_path_tool execute_move_path
  move_path_tool-Behaves arguments =
      move_decoded-Confined (decode_strict set_transfer no_transfer arguments)
