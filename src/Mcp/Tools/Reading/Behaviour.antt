-- ===== src/Mcp/Tools/Reading/Behaviour.antt =====
-- list_directory, read_file and get_path_info of internal/mcp/tools: their calls and results.
use flashgate_mcp.Base.{
  ℕ, ◌≡◌, refl, true, not, Option, none, some, List, [], ◌∷◌, String, Text, arith,
}
use flashgate_mcp.Errors.{Error, err, is_not_found}
use flashgate_mcp.Filepath.{dot}
use flashgate_mcp.Json.{Encoding, every_item}
use flashgate_mcp.Os.Rules.{Holds, Holds-answer, Holds-if}
use flashgate_mcp.Security.Lexical.{IsRooted}
use flashgate_mcp.Security.Confinement.{Reading}
use flashgate_mcp.Fs.Types.{LocalFileSystem, Entry}
use flashgate_mcp.Fs.Reading.Confinement.{read-Reading, stat-Reading}
use flashgate_mcp.Fs.Reading.Bounds.{list-bounded}
use flashgate_mcp.Mcp.Tools.Arguments.{
  PathArguments, ListArguments, ReadArguments, decode_strict, set_path, set_list, set_read, no_path,
  no_list, no_read, is_non_blank,
}
use flashgate_mcp.Mcp.Tools.Schema.{
  entry_schema, list_directory_output, read_file_output, get_path_info_output,
}
use flashgate_mcp.Mcp.Tools.Conformance.{
  conforms, Produces, map_filesystem_error-Produces, Produces-if, Behaves,
}
use flashgate_mcp.Mcp.Tools.Reading.{
  entries_json, list_result, list_at, list_path, list_decoded, execute_list_directory,
  list_directory_tool, read_limit, read_result, read_within, read_decoded, execute_read_file,
  read_file_tool, info_result, info_decoded, execute_get_path_info, get_path_info_tool,
}

module _ (e : Encoding) (f : LocalFileSystem) where
  entries_json-conform :
      (es : List Entry) → every_item (λ v. conforms entry_schema v) (entries_json e f es) ≡ true
  unfolding entries_json conforms flashgate_mcp.Mcp.Tools.Reading.entry_json
  entries_json-conform [] = refl
  entries_json-conform (x ∷ es) = entries_json-conform es

module _ (e : Encoding) (f : LocalFileSystem) (bs : List Text) (hf : IsRooted f.guard bs) where
  list_at-Reading :
      (path : Text) → Holds (Reading bs) (Produces list_directory_output) (list_at e f path)
  unfolding list_at list_result conforms
  list_at-Reading path =
      Holds-answer (Reading bs) (Produces list_directory_output) _ (list_result e f)
        (list-bounded f bs hf path) (λ es _. ground (arith, entries_json-conform e f es))
        (map_filesystem_error-Produces list_directory_output)

  list_decoded-Reading :
      (a : Option ListArguments)
      → Holds (Reading bs) (Produces list_directory_output) (list_decoded e f a)
  unfolding list_decoded list_path
  list_decoded-Reading none = tt
  list_decoded-Reading (some a) = by_path a.path
    where
      by_path :
          (path : Option String)
          → Holds (Reading bs) (Produces list_directory_output) (list_path e f path)
      by_path none = list_at-Reading dot
      by_path (some path) =
          Holds-if (Reading bs) (Produces list_directory_output) (not (is_non_blank path)) _ _
            (λ _. tt) (λ _. list_at-Reading (e.bytes_of path))

  pub list_directory_tool-Behaves : Behaves (Reading bs) (list_directory_tool e f)
  unfolding list_directory_tool execute_list_directory
  list_directory_tool-Behaves arguments =
      list_decoded-Reading (decode_strict set_list no_list arguments)

  read_within-Reading :
      (path : String) (limit : Option ℕ)
      → Holds (Reading bs) (Produces read_file_output) (read_within e f path limit)
  unfolding read_within read_result conforms
  read_within-Reading path none = tt
  read_within-Reading path (some n) =
      Holds-answer (Reading bs) (Produces read_file_output) _ (read_result e f)
        (read-Reading f bs hf (e.bytes_of path) n) (λ content _. refl)
        (map_filesystem_error-Produces read_file_output)

  read_decoded-Reading :
      (server_max : ℕ) (a : Option ReadArguments)
      → Holds (Reading bs) (Produces read_file_output) (read_decoded e f server_max a)
  unfolding read_decoded
  read_decoded-Reading server_max none = tt
  read_decoded-Reading server_max (some a) =
      Holds-if (Reading bs) (Produces read_file_output) (not (is_non_blank a.path)) _ _ (λ _. tt)
        (λ _. read_within-Reading a.path (read_limit e f server_max a.max_bytes))

  pub read_file_tool-Behaves :
      (server_max : ℕ) → Behaves (Reading bs) (read_file_tool e f server_max)
  unfolding read_file_tool execute_read_file
  read_file_tool-Behaves server_max arguments =
      read_decoded-Reading server_max (decode_strict set_read no_read arguments)

  info_result-Produces :
      (path : String) (x : Error) → Produces get_path_info_output (info_result e f path (err x))
  unfolding info_result conforms
  info_result-Produces path x =
      Produces-if get_path_info_output (is_not_found x) _ _ refl
        (map_filesystem_error-Produces get_path_info_output x)

  info_decoded-Reading :
      (a : Option PathArguments)
      → Holds (Reading bs) (Produces get_path_info_output) (info_decoded e f a)
  unfolding info_decoded info_result conforms
  info_decoded-Reading none = tt
  info_decoded-Reading (some a) =
      Holds-if (Reading bs) (Produces get_path_info_output) (not (is_non_blank a.path)) _ _
        (λ _. tt)
        λ _.
          Holds-answer (Reading bs) (Produces get_path_info_output) _ (info_result e f a.path)
            (stat-Reading f bs hf (e.bytes_of a.path)) (λ m _. refl) (info_result-Produces a.path)

  pub get_path_info_tool-Behaves : Behaves (Reading bs) (get_path_info_tool e f)
  unfolding get_path_info_tool execute_get_path_info
  get_path_info_tool-Behaves arguments =
      info_decoded-Reading (decode_strict set_path no_path arguments)
