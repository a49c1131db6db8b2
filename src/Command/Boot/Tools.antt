-- ===== src/Command/Boot/Tools.antt =====
-- createToolRegistry of cmd/server: the tools that the server offers.
use flashgate_mcp.Base.{
  ℕ, ◌≡◌, ◌≢◌, ◌++◌, refl, Bool, true, false, Option, List, [], ◌∷◌, map, String, Text,
  if◌then◌else◌,
}
use flashgate_mcp.Json.{Raw, Encoding}
use flashgate_mcp.Mcp.Router.{panic}
use flashgate_mcp.Mcp.Tools.Listing.{handle_list, definitions}
use flashgate_mcp.Mcp.Tools.Listing.Answers.{handle_list-total}
use flashgate_mcp.Os.{Call}
use flashgate_mcp.Os.Rules.{Holds-weaken}
use flashgate_mcp.Security.Lexical.{IsRooted}
use flashgate_mcp.Security.Confinement.{Confined, Reading, Reading-Confined}
use flashgate_mcp.Fs.Types.{LocalFileSystem}
use flashgate_mcp.Mcp.Registry.{Registry, new_registry, register, list}
use flashgate_mcp.Mcp.Registry.Every.{assign-Every}
use flashgate_mcp.Mcp.Tools.Tool.{Tool}
use flashgate_mcp.Mcp.Tools.Conformance.{Produces, Behaves}
use flashgate_mcp.Mcp.Tools.Calling.Answers.{EveryTool}
use flashgate_mcp.Mcp.Tools.Reading.{list_directory_tool, read_file_tool, get_path_info_tool}
use flashgate_mcp.Mcp.Tools.Reading.Behaviour.{
  list_directory_tool-Behaves, read_file_tool-Behaves, get_path_info_tool-Behaves,
}
use flashgate_mcp.Mcp.Tools.Writing.{write_file_tool, create_directory_tool, delete_path_tool}
use flashgate_mcp.Mcp.Tools.Transfer.{copy_path_tool, move_path_tool}
use flashgate_mcp.Mcp.Tools.Writing.Behaviour.{
  write_file_tool-Behaves, create_directory_tool-Behaves, delete_path_tool-Behaves,
}
use flashgate_mcp.Mcp.Tools.Transfer.Behaviour.{copy_path_tool-Behaves, move_path_tool-Behaves}
use flashgate_mcp.Command.Boot.{
  capabilities_from_read_only, with_tool, reading_tools, writing_tools, create_tool_registry,
}

with_tool-EveryTool :
    (Q : Tool → Type 0) (r : Registry Tool) (t : Tool)
    → EveryTool Q r
    → Q t
    → EveryTool Q (with_tool r t)
unfolding register
with_tool-EveryTool Q r t h q = assign-Every Q r.tools t.name t h q

-- The calls that the tools of a server may make: those that change nothing, if it is read-only.
abbrev pub Within : Bool → List Text → Call → Type 0
Within true bs c = Reading bs c
Within false bs c = Confined bs c

module _ (e : Encoding) (f : LocalFileSystem) (bs : List Text) (hf : IsRooted f.guard bs)
    (max_file_size : ℕ) where
  confined : (t : Tool) → Behaves (Reading bs) t → Behaves (Confined bs) t
  confined t h arguments =
      Holds-weaken (Reading bs) (Confined bs) (Produces t.output_schema) (Reading-Confined bs)
        (t.execute arguments) (h arguments)

  reading_tools-EveryTool :
      (Q : Tool → Type 0)
      → ((t : Tool) → Behaves (Reading bs) t → Q t)
      → EveryTool Q (reading_tools e f max_file_size)
  unfolding new_registry
  reading_tools-EveryTool Q k =
      with_tool-EveryTool Q _ _
        (with_tool-EveryTool Q _ _
          (with_tool-EveryTool Q new_registry _ tt (k _ (list_directory_tool-Behaves e f bs hf)))
          (k _ (read_file_tool-Behaves e f bs hf max_file_size)))
        (k _ (get_path_info_tool-Behaves e f bs hf))

  writing_tools-EveryTool :
      (r : Registry Tool)
      → EveryTool (Behaves (Confined bs)) r
      → EveryTool (Behaves (Confined bs)) (writing_tools e f r)
  writing_tools-EveryTool r h =
      let Q = Behaves (Confined bs) in
      with_tool-EveryTool Q _ _
        (with_tool-EveryTool Q _ _
          (with_tool-EveryTool Q _ _
            (with_tool-EveryTool Q _ _
              (with_tool-EveryTool Q r _ h (write_file_tool-Behaves e f bs hf))
              (create_directory_tool-Behaves e f bs hf))
            (delete_path_tool-Behaves e f bs hf))
          (copy_path_tool-Behaves e f bs hf))
        (move_path_tool-Behaves e f bs hf)

  -- For a guard whose root is clean and absolute, each tool that the server offers, whatever its
  -- arguments are and whatever the system replies, makes only calls that, but for os.Stat,
  -- EvalSymlinks and those on open files, name paths below the root, and that change nothing with
  -- a read-only profile; and each of its results conforms to its output schema.
  pub create_tool_registry-Behaves :
      (read_only : Bool)
      → EveryTool
          (Behaves (Within read_only bs))
          (create_tool_registry e f max_file_size (capabilities_from_read_only read_only))
  unfolding create_tool_registry
  create_tool_registry-Behaves true = reading_tools-EveryTool (Behaves (Reading bs)) (λ t h. h)
  create_tool_registry-Behaves false =
      writing_tools-EveryTool _ (reading_tools-EveryTool (Behaves (Confined bs)) confined)

module _ (e : Encoding) (f : LocalFileSystem) (max_file_size : ℕ) where
  abbrev pub offered : Bool → Registry Tool
  offered read_only = create_tool_registry e f max_file_size (capabilities_from_read_only read_only)

  abbrev reading_names : List String
  reading_names = "list_directory" ∷ "read_file" ∷ "get_path_info" ∷ []

  abbrev writing_names : List String
  writing_names = "write_file" ∷ "create_directory" ∷ "delete_path" ∷ "copy_path" ∷ "move_path" ∷ []

  -- The tools that the server offers, in their order, are the three that read with a read-only
  -- profile, and these and the five that write otherwise; and tools/list does not panic over them.
  pub create_tool_registry-offers :
      (read_only : Bool) (params : Option Raw)
      → (map (λ (t : Tool). t.name) (list (offered read_only))
          ≡ (if read_only then reading_names else reading_names ++ writing_names))
        × (handle_list (offered read_only) params ≢ panic)
  unfolding create_tool_registry list register new_registry list_directory_tool read_file_tool
      get_path_info_tool write_file_tool create_directory_tool delete_path_tool copy_path_tool
      move_path_tool definitions flashgate_mcp.Mcp.Tools.Tool.filesystem_tool_annotations
  create_tool_registry-offers true params = (refl, handle_list-total (offered true) params _ refl)
  create_tool_registry-offers false params = (refl, handle_list-total (offered false) params _ refl)
