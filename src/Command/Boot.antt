-- ===== src/Command/Boot.antt =====
-- tools_boot.go, router_boot.go and server_boot.go of cmd/server, with its default dependencies.
-- The system acts on a state of its own, and every call of it is kept.
pub mod Tools
pub mod Answers
pub mod Confinement
use flashgate_mcp.Base.{
  ℕ, Bool, true, false, not, ◌&&◌, Option, none, some, List, [], ◌∷◌, ◌++◌, if◌then◌else◌, String,
  Text, codes, text_eq,
}
use flashgate_mcp.Base.Result.{Result, ok, err}
use flashgate_mcp.Errors.{
  Error, security, Answer, SecurityError, root_not_directory, hidden_path_denied, unc_path_denied,
  symlink_denied, reparse_point_denied, outside_root, os, not_exist, permission,
}
use flashgate_mcp.Os.{Os, Call, Reply}
use flashgate_mcp.Os.World.{World, drive}
use flashgate_mcp.Filepath.{dot}
use flashgate_mcp.Security
use flashgate_mcp.Fs.Types.{Limits, LocalFileSystem, new_with_policy_and_limits}
use flashgate_mcp.Json.{Json, Raw, Encoding}
use flashgate_mcp.Protocol.{Response}
use flashgate_mcp.Config.{
  ErrorCategory, root_not_found, root_not_allowed, startup_failed, LoadError, config_error,
  file_error, Config, Environment, load_from_environment,
}
use flashgate_mcp.Mcp.Registry.{Registry, new_registry}
use flashgate_mcp.Mcp.Registry
use flashgate_mcp.Mcp.Revision.{production_policy}
use flashgate_mcp.Mcp.Router.{Outcome, Handler, Router, new_with_policy}
use flashgate_mcp.Mcp.Router
use flashgate_mcp.Mcp.Server.{Exit, finished, Options, Server, new_with_options, run}
use flashgate_mcp.Mcp.Initialize.{handle_initialize}
use flashgate_mcp.Mcp.Tools.Tool.{Tool}
use flashgate_mcp.Mcp.Tools.Reading.{list_directory_tool, read_file_tool, get_path_info_tool}
use flashgate_mcp.Mcp.Tools.Writing.{write_file_tool, create_directory_tool, delete_path_tool}
use flashgate_mcp.Mcp.Tools.Transfer.{copy_path_tool, move_path_tool}
use flashgate_mcp.Mcp.Tools.Calling.{handle_call}
use flashgate_mcp.Mcp.Tools.Listing.{handle_list}

pub record ToolCapabilities : Type 0 where
  pub filesystem_write : Bool

abbrev pub capabilities_from_read_only : Bool → ToolCapabilities
capabilities_from_read_only read_only = record { filesystem_write = not read_only }

abbrev pub with_tool : Registry Tool → Tool → Registry Tool
with_tool r t = Registry.register r t.name t

abbrev reading_tools : Encoding → LocalFileSystem → ℕ → Registry Tool
reading_tools e f max_file_size =
    with_tool
      (with_tool (with_tool new_registry (list_directory_tool e f))
        (read_file_tool e f max_file_size))
      (get_path_info_tool e f)

abbrev writing_tools : Encoding → LocalFileSystem → Registry Tool → Registry Tool
writing_tools e f r =
    with_tool
      (with_tool
        (with_tool (with_tool (with_tool r (write_file_tool e f)) (create_directory_tool e f))
          (delete_path_tool e f))
        (copy_path_tool e f))
      (move_path_tool e f)

-- `createToolRegistry`
unfoldable pub create_tool_registry :
    Encoding → LocalFileSystem → ℕ → ToolCapabilities → Registry Tool
create_tool_registry e f max_file_size capabilities =
    if not capabilities.filesystem_write
    then reading_tools e f max_file_size
    else writing_tools e f (reading_tools e f max_file_size)

root_category : Error → ErrorCategory
root_category (os not_exist) = root_not_found
root_category (security SecurityError.root_not_directory) = ErrorCategory.root_not_directory
root_category (os permission) = root_not_allowed
root_category (security hidden_path_denied) = root_not_allowed
root_category (security unc_path_denied) = root_not_allowed
root_category (security symlink_denied) = root_not_allowed
root_category (security reparse_point_denied) = root_not_allowed
root_category (security outside_root) = root_not_allowed
root_category _ = startup_failed

-- `categorizeRootError`
unfoldable pub categorize_root_error : Error → LoadError
unfolding root_category
categorize_root_error e = config_error (root_category e) (file_error e)

abbrev pub filesystem_limits_from_config : Config → Limits
filesystem_limits_from_config c = record {
  max_write_bytes = c.filesystem.max_write_bytes;
  max_list_entries = c.filesystem.max_list_entries;
  max_copy_bytes = c.filesystem.max_copy_bytes;
  max_delete_entries = c.filesystem.max_delete_entries;
}

abbrev pub security_policy_from_config : Config → Security.Policy
security_policy_from_config c = record {
  allow_hidden_files = c.security.allow_hidden_files;
  allow_unc_paths = c.security.allow_unc_paths;
  follow_symlinks = c.security.follow_symlinks;
}

abbrev pub server_options_from_config : Config → Options
server_options_from_config c = record {
  max_message_bytes = c.server.max_message_bytes;
  max_argument_bytes = c.server.max_argument_bytes;
  max_response_bytes = c.server.max_response_bytes;
}

-- `newFilesystem` of the default dependencies
abbrev pub new_filesystem : Config → Os (Answer LocalFileSystem)
new_filesystem c =
    new_with_policy_and_limits c.filesystem.root_path (security_policy_from_config c)
      (filesystem_limits_from_config c)

abbrev pub development_cwd_warning : Text
development_cwd_warning = codes "flashgate-mcp: warning: development CWD root enabled\n"

-- What `run` returns as an error.
pub data RunError : Type 0 where
  startup : LoadError → RunError
  stopped : Exit → RunError

run_result : Exit → Result RunError (Unit {0})
run_result finished = ok tt
run_result exit = err (stopped exit)

-- What is written to the two outputs, and the world of the file system.
pub record Process (S : Type 0) : Type 0 where
  pub world : World S
  pub stdout : List ℕ
  pub stderr : Text

-- The standard input, and whether writing to the standard output fails.
pub record Input : Type 0 where
  pub bytes : List ℕ
  pub broken : Bool

module _ {S : Type 0} (reply : (c : Call) → S → Reply c × S) (e : Encoding) where
  -- Handlers, and the handlers that make no calls.
  abbrev pub calling : (Option Raw → Os Outcome) → Handler (World S)
  calling h params w = drive reply (h params) w

  abbrev pub answering : (Option Raw → Outcome) → Handler (World S)
  answering h params w = (h params, w)

  unfoldable pub create_router : String → String → Registry Tool → Router (World S)
  create_router name version registry =
      Router.register
        (Router.register
          (Router.register (new_with_policy name version production_policy) "initialize"
            (answering (handle_initialize name version)))
          "tools/list" (answering (handle_list registry)))
        "tools/call" (calling (handle_call e registry))

  warned : Config → Process S → Process S
  warned c p =
      if text_eq c.filesystem.root_path dot && c.filesystem.allow_cwd_root
      then record p { stderr = p.stderr ++ development_cwd_warning }
      else p

  unfoldable pub router_of : Config → LocalFileSystem → Router (World S)
  unfolding create_router create_tool_registry
  router_of c f = create_router (e.text_of c.server.name) (e.text_of c.server.version) (
      create_tool_registry e f c.filesystem.max_file_size
        (capabilities_from_read_only c.filesystem.read_only))

  module _ (decode : List ℕ → Option Json) (encode : Response → List ℕ) (is_cancelled : ℕ → Bool)
      (input : Input) where
    unfoldable pub serve :
        Config → Router (World S) → Process S → Result RunError (Unit {0}) × Process S
    unfolding run_result new_with_options
    serve c router p =
        let server =
          new_with_options input.bytes input.broken (server_options_from_config c) p.world in
        let (exit, s) = run router decode encode is_cancelled server in
        (run_result exit, record p { world = s.world; stdout = p.stdout ++ s.transport.output })

    unfoldable pub serve_filesystem :
        Config → Answer LocalFileSystem → Process S → Result RunError (Unit {0}) × Process S
    unfolding serve warned categorize_root_error
    serve_filesystem c (err x) p = (err (startup (categorize_root_error x)), p)
    serve_filesystem c (ok f) p = serve c (router_of c f) (warned c p)

    unfoldable pub serve_configured :
        Result LoadError Config → Process S → Result RunError (Unit {0}) × Process S
    unfolding serve_filesystem drive
    serve_configured (err x) p = (err (startup x), p)
    serve_configured (ok c) p =
        let (f, w) = drive reply (new_filesystem c) p.world in
        serve_filesystem c f (record p { world = w })

    -- `runWithIO`
    unfoldable pub run_with_io : Environment → Process S → Result RunError (Unit {0}) × Process S
    unfolding serve_configured
    run_with_io env p = serve_configured (load_from_environment env) p
