-- ===== src/Config/Tests.antt =====
-- Examples for the configuration.
use flashgate_mcp.Base.{
  ℕ, ◌≡◌, ◌<◌, ◌^◌, ◌↔◌, refl, true, false, Option, none, some, List, [], ◌∷◌, String, codes, Text,
  arith, str_eq, if◌then◌else◌,
}
use flashgate_mcp.Base.Result.{ok}
use flashgate_mcp.Config.{
  Config, Environment, default_config, load_from_environment, validate, parse_positive,
}
use flashgate_mcp.Config.Loading.{
  IsValid, ReadOnlyAs, load_from_environment-IsValid, validate_iff, load_from_environment-profile,
}

abbrev environment : Environment
environment name =
    if str_eq name "MCP_ROOT"
    then some (codes "/srv")
    else if str_eq name "MCP_READ_ONLY"
    then some (codes "true")
    else none

abbrev loaded : Config
loaded = record default_config {
  filesystem = record default_config.filesystem { root_path = codes "/srv"; read_only = true };
}

load_from_environment-IsValid_example : IsValid loaded
unfolding load_from_environment flashgate_mcp.Config.read_environment flashgate_mcp.Config.or_error
    flashgate_mcp.Config.read_only_from flashgate_mcp.Config.parse_bool
    flashgate_mcp.Config.allow_cwd_from flashgate_mcp.Config.limit_from flashgate_mcp.Config.getenv
    flashgate_mcp.Config.flag_from validate flashgate_mcp.Base.is_blank default_config
    flashgate_mcp.Filepath.is_abs
load_from_environment-IsValid_example = load_from_environment-IsValid environment loaded refl

validate_iff_example : (validate loaded ≡ ok tt) ↔ IsValid loaded
validate_iff_example = validate_iff loaded

load_from_environment-profile_example :
    (environment "MCP_ROOT" ≡ some (codes "/srv"))
    × ReadOnlyAs environment true
    × ((environment "MCP_ALLOW_CWD_ROOT" ≡ some (codes "true")) ↔ (false ≡ true))
unfolding load_from_environment flashgate_mcp.Config.read_environment flashgate_mcp.Config.or_error
    flashgate_mcp.Config.read_only_from flashgate_mcp.Config.parse_bool
    flashgate_mcp.Config.allow_cwd_from flashgate_mcp.Config.limit_from flashgate_mcp.Config.getenv
    flashgate_mcp.Config.flag_from validate flashgate_mcp.Base.is_blank default_config
    flashgate_mcp.Filepath.is_abs
load_from_environment-profile_example = load_from_environment-profile environment loaded refl
