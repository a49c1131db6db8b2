-- ===== src/Command/Tests.antt =====
-- Examples for the server as a whole and for its tools.
use flashgate_mcp.Base.{
  ◌≡◌, ◌≢◌, ◌↔◌, ◌⊎◌, refl, Bool, true, false, Option, none, some, List, [], ◌∷◌, map, String, Text,
  codes, str_eq, if◌then◌else◌, arith, ℕ,
}
use flashgate_mcp.Base.Result.{Result, ok, err}
use flashgate_mcp.Json.{Json, null, string, object, field, end, Raw, Encoding}
use flashgate_mcp.Protocol.{Response}
use flashgate_mcp.Os.{Call, Reply, getwd}
use flashgate_mcp.Os.Rules.{Holds}
use flashgate_mcp.Filepath.{is_abs}
use flashgate_mcp.Security.Samples.{srv, guard, guard-IsRooted, system}
use flashgate_mcp.Security.Confinement.{Reading}
use flashgate_mcp.Fs.Types.{LocalFileSystem}
use flashgate_mcp.Mcp.Validation.{ValidatedRequest}
use flashgate_mcp.Mcp.Server.{handle_request}
use flashgate_mcp.Mcp.Server.Replies.{Answers}
use flashgate_mcp.Command.Boot.Answers.{router_of-Answers}
use flashgate_mcp.Config.{
  default_config, Environment, ErrorCategory, missing_root, startup_failed, config_error, no_cause,
  parse_failure,
}
use flashgate_mcp.Version.{Info}
use flashgate_mcp.Mcp.Registry.{list}
use flashgate_mcp.Mcp.Router.{panic}
use flashgate_mcp.Mcp.Tools.Tool.{Tool}
use flashgate_mcp.Mcp.Tools.Conformance.{Behaves}
use flashgate_mcp.Mcp.Tools.Arguments.{WriteArguments, decode_strict, set_write, no_write}
use flashgate_mcp.Mcp.Tools.Arguments.Strictness.{AllKnown, set_write-Takes, decode_strict-AllKnown}
use flashgate_mcp.Json.Lookup.{last_value}
use flashgate_mcp.Mcp.Tools.Calling.{handle_call}
use flashgate_mcp.Mcp.Tools.Calling.Answers.{EveryTool, CallAnswer, handle_call-CallAnswer}
use flashgate_mcp.Mcp.Tools.Listing.{handle_list}
use flashgate_mcp.Command.Boot.{Process, RunError, startup, run_with_io, router_of}
use flashgate_mcp.Command.Boot.Tools.{
  offered, create_tool_registry-Behaves, create_tool_registry-offers,
}
use flashgate_mcp.Command.Boot.Confinement.{Confines, run_with_io-Confines}
use flashgate_mcp.Command.Cli.{run_category, run_main}
use flashgate_mcp.Command.Cli.ExitCodes.{run_main-exit, run_main-configuration, run_main-hides}

-- Texts are their codes, and every value is written as "{}".
abbrev encoding : Encoding
encoding = record { bytes_of = codes; text_of = λ t. "a"; marshal = λ v. "{}" }

abbrev files : LocalFileSystem
files = record {
  guard = guard;
  limits = record {
    max_write_bytes = 2;
    max_list_entries = 3;
    max_copy_bytes = 4;
    max_delete_entries = 5;
  };
}

-- The system of the samples, with no state.
abbrev reply : (c : Call) → Bool → Reply c × Bool
reply c s = (system c, s)

reply-absolute : (s : Bool) (wd : Text) → (reply getwd s).0 ≡ ok wd → is_abs wd ≡ true
unfolding is_abs
reply-absolute s wd e = ground arith

abbrev environment : Environment
environment name = if str_eq name "MCP_ROOT" then some (codes "/srv") else none

abbrev process : Process Bool
process = record { world = record { state = true; trace = [] }; stdout = []; stderr = [] }

abbrev call_value : Json
call_value = object (
    field "name" 0 (string "read_file")
      (field "arguments" 0 (object (field "path" 0 (string "a") end)) end))

abbrev call_params : Option Raw
call_params = some (record { size = 0; value = call_value })

-- Every line is a call of read_file.
abbrev decode : List ℕ → Option Json
decode line = some (
    object (
      field "jsonrpc" 0 (string "2.0") (
        field "id" 0 (string "1")
          (field "method" 0 (string "tools/call") (field "params" 0 call_value end)))))

abbrev encode : Response → List ℕ
encode r = codes "{}"

run_with_io-Confines_example :
    Confines reply encoding environment process.world
      (run_with_io reply encoding decode encode
        (λ n. false)
        (record { bytes = codes "x\n"; broken = false })
        environment
        process).1.world
run_with_io-Confines_example =
    run_with_io-Confines reply encoding reply-absolute decode encode (λ n. false)
      (record { bytes = codes "x\n"; broken = false }) environment process

create_tool_registry-Behaves_example :
    EveryTool (Behaves (Reading srv)) (offered encoding files 10 true)
create_tool_registry-Behaves_example =
    create_tool_registry-Behaves encoding files srv guard-IsRooted 10 true

create_tool_registry-offers_example :
    (map (λ (t : Tool). t.name) (list (offered encoding files 10 true))
      ≡ "list_directory" ∷ "read_file" ∷ "get_path_info" ∷ [])
    × (handle_list (offered encoding files 10 true) none ≢ panic)
create_tool_registry-offers_example = create_tool_registry-offers encoding files 10 true none

handle_call-CallAnswer_example :
    Holds
      (Reading srv)
      (CallAnswer encoding (offered encoding files 10 true) call_params)
      (handle_call encoding (offered encoding files 10 true) call_params)
handle_call-CallAnswer_example =
    handle_call-CallAnswer encoding (offered encoding files 10 true) call_params (Reading srv)
      (create_tool_registry-Behaves encoding files srv guard-IsRooted 10 true)

abbrev write_arguments : Json
write_arguments = object (field "PATH" 0 (string "a") (field "content" 0 (string "b") end))

decode_strict-AllKnown_example :
    (fs : _) × (write_arguments ≡ object fs)
    × ((key : String) → last_value key fs ≢ some null)
    × AllKnown ("path" ∷ "content" ∷ "overwrite" ∷ []) fs
unfolding decode_strict set_write flashgate_mcp.Mcp.Tools.Arguments.is_field
    flashgate_mcp.Base.text_eq
decode_strict-AllKnown_example =
    decode_strict-AllKnown ("path" ∷ "content" ∷ "overwrite" ∷ []) set_write set_write-Takes
      no_write (record { path = "a"; content = "b"; overwrite = false }) write_arguments refl

abbrev info : Info
info = record {
  product_name = codes "FlashGate MCP";
  binary_name = codes "flashgate-mcp";
  version = codes "1.0.0";
  file_version = codes "1.0.0.0";
  commit = codes "unknown";
  source_time = codes "unknown";
  modified = false;
  go_version = codes "go1";
  goos = codes "linux";
  goarch = codes "amd64";
  public_arch = codes "x64";
  copyright = [];
  build_manifest = [];
}

-- A server that cannot start.
abbrev no_root : Bool → Result RunError (Unit {0}) × Bool
no_root w = (err (startup (config_error missing_root no_cause)), w)

abbrev no_root' : Bool → Result RunError (Unit {0}) × Bool
no_root' w = (err (startup (config_error missing_root parse_failure)), w)

run_main-exit_example :
    (let x = run_main info no_root (codes "--version" ∷ []) true in
      ((x.0.0 ≡ 0) ↔ (x.0.2 ≡ []))
      × ((codes "--version" ∷ []) ≢ [] → (x.1 ≡ true) × ((x.0.0 ≡ 0) ⊎ (x.0.0 ≡ 2))))
run_main-exit_example = run_main-exit info no_root (codes "--version" ∷ []) true

run_main-configuration_example : ((run_main info no_root [] true).0.0 ≡ 3) ↔ (
    (c : ErrorCategory) × (run_category (startup (config_error missing_root no_cause)) ≡ some c)
    × (c ≢ startup_failed))
run_main-configuration_example =
    run_main-configuration info no_root true (startup (config_error missing_root no_cause)) refl

run_main-hides_example : (run_main info no_root [] true).0 ≡ (run_main info no_root' [] false).0
run_main-hides_example =
    run_main-hides info no_root no_root' true false missing_root no_cause parse_failure refl refl

abbrev request : ValidatedRequest
request = record {
  id = some (string "1");
  method = "tools/call";
  params = call_params;
  notification = false;
}

router_of-Answers_example :
    Answers
      (string "1")
      (handle_request
        (router_of reply encoding default_config files)
        decode
        encode
        request
        process.world).0
router_of-Answers_example =
    router_of-Answers reply encoding decode encode default_config files request process.world
