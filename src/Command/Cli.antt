-- ===== src/Command/Cli.antt =====
-- cli.go and main.go of cmd/server: the arguments of the command, and its exit code.
pub mod ExitCodes
use flashgate_mcp.Base.{
  ℕ, Bool, true, false, ◌&&◌, ◌||◌, Option, none, some, List, [], ◌∷◌, ◌++◌, if◌then◌else◌, String,
  Text, codes, text_eq,
}
use flashgate_mcp.Base.Result.{Result, ok, err}
use flashgate_mcp.Config.{
  ErrorCategory, missing_root, invalid_root, root_not_found, root_not_directory, root_not_allowed,
  invalid_profile, invalid_development_option, startup_failed, category_of,
}
use flashgate_mcp.Version.{Info, version_string, verbose_string}
use flashgate_mcp.Mcp.Server.{Exit, cancelled}
use flashgate_mcp.Command.Boot.{RunError, startup, stopped}

abbrev pub help_text : String
help_text =
    "flashgate-mcp\n\nUsage:\n  flashgate-mcp\n  flashgate-mcp --version\n  flashgate-mcp --version --verbose\n  flashgate-mcp --help\n\nEnvironment:\n  MCP_ROOT             Required absolute root directory exposed to MCP clients\n  MCP_READ_ONLY        Set to true to expose only read-only filesystem tools\n  MCP_ALLOW_CWD_ROOT   Development only: set to true with MCP_ROOT=.\n"

-- An error of the arguments, with its message, or one of the server.
pub data CliError : Type 0 where
  invalid_arguments : String → CliError
  run_error : RunError → CliError

-- The exit code, what is printed to the standard output, and the error.
pub record CliResult : Type 0 where
  pub code : ℕ
  pub printed : Text
  pub error : Option CliError

-- `errors.Is(err, context.Canceled)`
is_canceled : RunError → Bool
is_canceled (stopped cancelled) = true
is_canceled _ = false

-- `CategoryOf`
unfoldable pub run_category : RunError → Option ErrorCategory
unfolding category_of
run_category (startup e) = category_of e
run_category (stopped exit) = none

is_startup_failed : ErrorCategory → Bool
is_startup_failed startup_failed = true
is_startup_failed _ = false

failure_code : Option ErrorCategory → ℕ
unfolding is_startup_failed
failure_code none = 1
failure_code (some category) = if is_startup_failed category then 1 else 3

served : Result RunError (Unit {0}) → CliResult
unfolding is_canceled failure_code run_category
served (ok _) = record { code = 0; printed = []; error = none }
served (err e) =
    if is_canceled e
    then record { code = 0; printed = []; error = none }
    else record { code = failure_code (run_category e); printed = []; error = some (run_error e) }

abbrev printing : Text → CliResult
printing text = record { code = 0; printed = text; error = none }

abbrev refusing : String → CliResult
refusing message = record { code = 2; printed = []; error = some (invalid_arguments message) }

one_argument : Info → Text → CliResult
unfolding text_eq version_string
one_argument info a =
    if text_eq a (codes "--version")
    then printing (version_string info ++ b'\n' ∷ [])
    else if text_eq a (codes "--help") || text_eq a (codes "-h")
    then printing (codes help_text)
    else refusing "invalid CLI arguments: unknown argument\nUse --help for usage."

two_arguments : Info → Text → Text → CliResult
unfolding text_eq verbose_string
two_arguments info a b =
    if text_eq a (codes "--version") && text_eq b (codes "--verbose")
    then printing (verbose_string info ++ b'\n' ∷ [])
    else refusing "invalid CLI arguments: unsupported argument combination\nUse --help for usage."

-- The text of a category
unfoldable pub category_name : ErrorCategory → String
category_name missing_root = "missing_root"
category_name invalid_root = "invalid_root"
category_name root_not_found = "root_not_found"
category_name root_not_directory = "root_not_directory"
category_name root_not_allowed = "root_not_allowed"
category_name invalid_profile = "invalid_profile"
category_name invalid_development_option = "invalid_development_option"
category_name startup_failed = "startup_failed"

or_startup_failed : Option ErrorCategory → ErrorCategory
or_startup_failed none = startup_failed
or_startup_failed (some category) = category

-- What `runMain` writes to the standard error, and the exit code of the process.
unfoldable pub report : CliResult → ℕ × Text
unfolding category_name or_startup_failed run_category
report r = elim r.error [
  | none ↦ (r.code, [])
  | some (invalid_arguments message) ↦ (2, codes "flashgate-mcp: " ++ codes message ++ b'\n' ∷ [])
  | some (run_error e) ↦ (
    r.code,
    codes "flashgate-mcp: startup failed ("
        ++ codes (category_name (or_startup_failed (run_category e)))
        ++ codes ")\n",
  )
]

module _ {W : Type 0} (info : Info) (run_server : W → Result RunError (Unit {0}) × W) where
  -- `runCLI`
  unfoldable pub run_cli : List Text → W → CliResult × W
  unfolding served one_argument two_arguments
  run_cli [] w = let (r, w') = run_server w in (served r, w')
  run_cli (a ∷ []) w = (one_argument info a, w)
  run_cli (a ∷ b ∷ []) w = (two_arguments info a b, w)
  run_cli _ w = (refusing "invalid CLI arguments: too many arguments\nUse --help for usage.", w)

  -- `runMain`: the exit code, and what is written to the two outputs besides the server's.
  unfoldable pub run_main : List Text → W → (ℕ × Text × Text) × W
  unfolding run_cli report
  run_main arguments w =
      let (r, w') = run_cli arguments w in
      let (code, message) = report r in ((code, r.printed, message), w')
