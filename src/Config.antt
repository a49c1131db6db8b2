-- ===== src/Config.antt =====
-- internal/config: the configuration that the environment gives, and its validation. A numeric
-- limit is a natural number: 0 stands for every value that is not positive.
pub mod Parsing
pub mod Loading
mod Tests
use flashgate_mcp.Base.{
  ℕ, zero, suc, ◌+◌, ◌-◌, ◌*◌, ◌^◌, Bool, true, false, not, ◌&&◌, ◌||◌, Option, none, some, List,
  [], ◌∷◌, ◌==◌, ltb, leb, if◌then◌else◌, String, Text, codes, text_eq, is_blank,
}
use flashgate_mcp.Base.Result.{Result, ok, err, ◌>>=◌, ◌>>◌}
use flashgate_mcp.Errors.{Error}
use flashgate_mcp.Filepath.{dot, is_abs}

pub data ErrorCategory : Type 0 where
  missing_root invalid_root root_not_found root_not_directory root_not_allowed : ErrorCategory
  invalid_profile invalid_development_option startup_failed : ErrorCategory

-- The cause that a `ConfigError` carries.
pub data Cause : Type 0 where
  no_cause parse_failure invalid_dependencies : Cause
  file_error : Error → Cause

-- A categorised error, one that names the variable whose value cannot be read, or one that names
-- the limit that is not positive.
pub data LoadError : Type 0 where
  config_error : ErrorCategory → Cause → LoadError
  invalid_value : String → LoadError
  not_positive : String → LoadError

-- `CategoryOf`
unfoldable pub category_of : LoadError → Option ErrorCategory
category_of (config_error category cause) = some category
category_of (invalid_value name) = none
category_of (not_positive name) = none

pub record FilesystemConfig : Type 0 where
  pub root_path : Text
  pub read_only : Bool
  pub allow_cwd_root : Bool
  pub max_file_size : ℕ
  pub max_write_bytes : ℕ
  pub max_list_entries : ℕ
  pub max_copy_bytes : ℕ
  pub max_delete_entries : ℕ

pub record SecurityConfig : Type 0 where
  pub allow_hidden_files : Bool
  pub allow_unc_paths : Bool
  pub follow_symlinks : Bool

pub record ServerConfig : Type 0 where
  pub name : Text
  pub version : Text
  pub debug : Bool
  pub max_message_bytes : ℕ
  pub max_argument_bytes : ℕ
  pub max_response_bytes : ℕ

pub record Config : Type 0 where
  pub filesystem : FilesystemConfig
  pub security : SecurityConfig
  pub server : ServerConfig

abbrev mib : ℕ → ℕ
mib n = n * 1024 * 1024

pub default_config : Config
default_config = record {
  filesystem = record {
    root_path = [];
    read_only = false;
    allow_cwd_root = false;
    max_file_size = mib 10;
    max_write_bytes = mib 10;
    max_list_entries = 1000;
    max_copy_bytes = mib 10;
    max_delete_entries = 1000;
  };
  security = record {
    allow_hidden_files = false;
    allow_unc_paths = false;
    follow_symlinks = false;
  };
  server = record {
    name = codes "flashgate";
    version = codes "0.1.0-dev";
    debug = false;
    max_message_bytes = mib 16;
    max_argument_bytes = mib 12;
    max_response_bytes = mib 16;
  };
}

-- `os.LookupEnv`
abbrev pub Environment : Type 0
Environment = String → Option Text

-- `os.Getenv`, and the test that the value is not empty.
pub getenv : Environment → String → Option Text
getenv env name = elim (env name) [
  | none ↦ none
  | some value ↦ if text_eq value [] then none else some value
]

one_of : Text → List String → Bool
one_of value [] = false
one_of value (s ∷ ss) = text_eq value (codes s) || one_of value ss

-- `strconv.ParseBool`
unfoldable pub parse_bool : Text → Option Bool
unfolding one_of text_eq
parse_bool value =
    if one_of value ("1" ∷ "t" ∷ "T" ∷ "true" ∷ "TRUE" ∷ "True" ∷ [])
    then some true
    else if one_of value ("0" ∷ "f" ∷ "F" ∷ "false" ∷ "FALSE" ∷ "False" ∷ [])
    then some false
    else none

-- The digits of a decimal number, behind those that stand for `n`.
parse_digits : ℕ → Text → Option ℕ
parse_digits n [] = some n
parse_digits n (c ∷ s) =
    let rest = parse_digits (n * 10 + (c - b'0')) s in
    if leb b'0' c && leb c b'9' then rest else none

-- Behind the sign there is a digit at least.
parse_unsigned : Text → Option ℕ
unfolding parse_digits
parse_unsigned [] = none
parse_unsigned (c ∷ s) = parse_digits 0 (c ∷ s)

drop_plus : Text → Text
drop_plus [] = []
drop_plus (c ∷ s) = if c == b'+' then s else c ∷ s

-- `strconv.ParseInt(value, 10, 64)` with the test for a positive result, which no text with a
-- minus sign passes. `int` has 64 bits on the platforms that are built.
unfoldable pub parse_positive : Text → Option ℕ
unfolding parse_unsigned drop_plus
parse_positive value = elim (parse_unsigned (drop_plus value)) [
  | none ↦ none
  | some n ↦ if n == 0 || leb (2 ^ 63) n then none else some n
]

abbrev pub Loaded : Type 0 → Type 0
Loaded A = Result LoadError A

or_error : {A : Type 0} → LoadError → Option A → Loaded A
or_error e none = err e
or_error e (some a) = ok a

-- `if value := os.Getenv(name); value != "" { parsePositiveInt64(value, name) }`
limit_from : Environment → String → ℕ → Loaded ℕ
unfolding or_error
limit_from env name default = elim (getenv env name) [
  | none ↦ ok default
  | some value ↦ or_error (invalid_value name) (parse_positive value)
]

-- `if value := os.Getenv(name); value != "" { strconv.ParseBool(value) }`
flag_from : Environment → String → Loaded Bool
unfolding or_error
flag_from env name = elim (getenv env name) [
  | none ↦ ok false
  | some value ↦ or_error (invalid_value name) (parse_bool value)
]

-- MCP_READ_ONLY is read wherever it is set, also to the empty text.
read_only_from : Environment → Loaded Bool
unfolding or_error
read_only_from env = elim (env "MCP_READ_ONLY") [
  | none ↦ ok false
  | some value ↦ or_error (config_error invalid_profile parse_failure) (parse_bool value)
]

-- MCP_ALLOW_CWD_ROOT is "true" or "false".
allow_cwd_from : Environment → Loaded Bool
unfolding text_eq
allow_cwd_from env = elim (env "MCP_ALLOW_CWD_ROOT") [
  | none ↦ ok false
  | some value ↦
      if text_eq value (codes "true")
      then ok true
      else if text_eq value (codes "false")
      then ok false
      else err (config_error invalid_development_option no_cause)
]

require_positive : String → ℕ → Loaded Unit
require_positive name n = if n == 0 then err (not_positive name) else ok tt

-- The root is absolute, or the working directory where that is allowed.
root_allowed : FilesystemConfig → Bool
root_allowed f = is_abs f.root_path || text_eq f.root_path dot && f.allow_cwd_root

pub validate : Config → Loaded Unit
unfolding require_positive root_allowed
validate c = do
  if is_blank c.filesystem.root_path then err (config_error invalid_root no_cause) else ok tt
  require_positive "file size" c.filesystem.max_file_size
  require_positive "write size" c.filesystem.max_write_bytes
  require_positive "list entries" c.filesystem.max_list_entries
  require_positive "copy size" c.filesystem.max_copy_bytes
  require_positive "delete entries" c.filesystem.max_delete_entries
  require_positive "JSON-RPC message size" c.server.max_message_bytes
  require_positive "tool argument size" c.server.max_argument_bytes
  require_positive "JSON-RPC response size" c.server.max_response_bytes
  if root_allowed c.filesystem then ok tt else err (config_error invalid_root no_cause)

-- The part of `LoadFromEnvironment` that reads the variables, in its order.
read_environment : Environment → Loaded Config
read_environment env = do
  let d = default_config
  root_path ← or_error (config_error missing_root no_cause) (env "MCP_ROOT")
  read_only ← read_only_from env
  allow_cwd_root ← allow_cwd_from env
  max_file_size ← limit_from env "MCP_MAX_FILE_SIZE" d.filesystem.max_file_size
  max_write_bytes ← limit_from env "MCP_MAX_WRITE_BYTES" d.filesystem.max_write_bytes
  max_list_entries ← limit_from env "MCP_MAX_LIST_ENTRIES" d.filesystem.max_list_entries
  max_copy_bytes ← limit_from env "MCP_MAX_COPY_BYTES" d.filesystem.max_copy_bytes
  max_delete_entries ← limit_from env "MCP_MAX_DELETE_ENTRIES" d.filesystem.max_delete_entries
  allow_hidden_files ← flag_from env "MCP_ALLOW_HIDDEN_FILES"
  allow_unc_paths ← flag_from env "MCP_ALLOW_UNC_PATHS"
  follow_symlinks ← flag_from env "MCP_FOLLOW_SYMLINKS"
  debug ← flag_from env "MCP_DEBUG"
  max_message_bytes ← limit_from env "MCP_MAX_JSONRPC_MESSAGE_BYTES" d.server.max_message_bytes
  max_argument_bytes ← limit_from env "MCP_MAX_TOOL_ARGUMENT_BYTES" d.server.max_argument_bytes
  max_response_bytes ← limit_from env "MCP_MAX_RESPONSE_BYTES" d.server.max_response_bytes
  ok (record {
    filesystem = record {
      root_path = root_path;
      read_only = read_only;
      allow_cwd_root = allow_cwd_root;
      max_file_size = max_file_size;
      max_write_bytes = max_write_bytes;
      max_list_entries = max_list_entries;
      max_copy_bytes = max_copy_bytes;
      max_delete_entries = max_delete_entries;
    };
    security = record {
      allow_hidden_files = allow_hidden_files;
      allow_unc_paths = allow_unc_paths;
      follow_symlinks = follow_symlinks;
    };
    server = record {
      name = d.server.name;
      version = d.server.version;
      debug = debug;
      max_message_bytes = max_message_bytes;
      max_argument_bytes = max_argument_bytes;
      max_response_bytes = max_response_bytes;
    };
  })

pub load_from_environment : Environment → Loaded Config
load_from_environment env = do c ← read_environment env; validate c; ok c
