-- ===== src/Config/Loading.antt =====
-- LoadFromEnvironment and Validate of internal/config: what a loaded configuration is.
use flashgate_mcp.Base.{
  ◌≡◌, ◌↔◌, ◌<◌, Bool, true, false, none, some, arith, Text, codes, text_eq, is_blank, ◌⊎◌, inl,
  inr, Option-cases, text_eq_iff,
}
use flashgate_mcp.Base.Result.{ok}
use flashgate_mcp.Filepath.{dot, is_abs}
use flashgate_mcp.Config.{
  Config, Environment, parse_bool, validate, require_positive, root_allowed, read_environment,
  read_only_from, or_error, load_from_environment, allow_cwd_from, flag_from,
}

-- The limits are positive, and the root is absolute or the working directory where that is
-- allowed.
pub record IsValid (c : Config) : Type 0 where
  pub root_given : is_blank c.filesystem.root_path ≡ false
  pub root_ok :
      (is_abs c.filesystem.root_path ≡ true)
      ⊎ ((text_eq c.filesystem.root_path dot ≡ true) × (c.filesystem.allow_cwd_root ≡ true))
  pub file_size : 0 < c.filesystem.max_file_size
  pub write_bytes : 0 < c.filesystem.max_write_bytes
  pub list_entries : 0 < c.filesystem.max_list_entries
  pub copy_bytes : 0 < c.filesystem.max_copy_bytes
  pub delete_entries : 0 < c.filesystem.max_delete_entries
  pub message_bytes : 0 < c.server.max_message_bytes
  pub argument_bytes : 0 < c.server.max_argument_bytes
  pub response_bytes : 0 < c.server.max_response_bytes

validate-IsValid : (c : Config) → validate c ≡ ok tt → IsValid c
unfolding validate require_positive root_allowed
validate-IsValid c h = ground arith

IsValid-validate : (c : Config) → IsValid c → validate c ≡ ok tt
unfolding validate require_positive root_allowed
IsValid-validate c v = ground arith

loaded_parts :
    (env : Environment) (c : Config)
    → load_from_environment env ≡ ok c
    → (read_environment env ≡ ok c) × (validate c ≡ ok tt)
unfolding load_from_environment
loaded_parts env c h = ground arith

-- A configuration that is loaded from the environment has positive limits, and its root is given
-- and either absolute or the working directory with the leave of MCP_ALLOW_CWD_ROOT.
pub load_from_environment-IsValid :
    (env : Environment) (c : Config) → load_from_environment env ≡ ok c → IsValid c
load_from_environment-IsValid env c h = validate-IsValid c (loaded_parts env c h).1

-- Validate accepts exactly the configurations with positive limits and a root that is given and
-- either absolute or the working directory where that is allowed.
pub validate_iff : (c : Config) → (validate c ≡ ok tt) ↔ IsValid c
validate_iff c = (validate-IsValid c, IsValid-validate c)

-- What the profile variables give is what the configuration holds.
profile_lem :
    (env : Environment) (c : Config)
    → read_environment env ≡ ok c
    → (read_only_from env ≡ ok c.filesystem.read_only)
      × (allow_cwd_from env ≡ ok c.filesystem.allow_cwd_root)
      × (env "MCP_ROOT" ≡ some c.filesystem.root_path)
      × (flag_from env "MCP_FOLLOW_SYMLINKS" ≡ ok c.security.follow_symlinks)
      × (flag_from env "MCP_ALLOW_HIDDEN_FILES" ≡ ok c.security.allow_hidden_files)
unfolding read_environment or_error
profile_lem env c h = ground arith

abbrev pub ReadOnlyAs : Environment → Bool → Type 0
ReadOnlyAs env b =
    ((env "MCP_READ_ONLY" ≡ none) × (b ≡ false))
    ⊎ ((v : Text) × (env "MCP_READ_ONLY" ≡ some v) × (parse_bool v ≡ some b))

read_only_lem : (env : Environment) (b : Bool) → read_only_from env ≡ ok b → ReadOnlyAs env b
unfolding read_only_from or_error
read_only_lem env b h = elim (Option-cases (env "MCP_READ_ONLY")) [
  | inl e ↦ inl (e, ground arith)
  | inr (v, e) ↦ inr (v, e, ground arith)
]

allow_cwd_lem :
    (env : Environment) (b : Bool)
    → allow_cwd_from env ≡ ok b
    → (env "MCP_ALLOW_CWD_ROOT" ≡ some (codes "true")) ↔ (b ≡ true)
unfolding allow_cwd_from
allow_cwd_lem env b h = elim (Option-cases (env "MCP_ALLOW_CWD_ROOT")) [
  | inl e ↦ (λ k. cc, λ k. ground arith)
  | inr (v, e) ↦ (
    λ k. ground (arith, text_eq_iff v (codes "true")),
    λ k. ground (arith, text_eq_iff v (codes "true")),
  )
]

-- In a configuration that was loaded the root is the value of MCP_ROOT; the server is read-only as
-- MCP_READ_ONLY says, where that is set, and not otherwise; and the working directory is allowed
-- exactly if MCP_ALLOW_CWD_ROOT is "true".
pub load_from_environment-profile :
    (env : Environment) (c : Config)
    → load_from_environment env ≡ ok c
    → (env "MCP_ROOT" ≡ some c.filesystem.root_path)
      × ReadOnlyAs env c.filesystem.read_only
      × ((env "MCP_ALLOW_CWD_ROOT" ≡ some (codes "true")) ↔ (c.filesystem.allow_cwd_root ≡ true))
load_from_environment-profile env c h =
    let p = profile_lem env c (loaded_parts env c h).0 in
    (
      p.2,
      read_only_lem env c.filesystem.read_only p.0,
      allow_cwd_lem env c.filesystem.allow_cwd_root p.1,
    )
