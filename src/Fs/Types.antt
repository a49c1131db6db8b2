-- ===== src/Fs/Types.antt =====
-- internal/fs/filesystem.go: limits, results, and the file system below a guarded root.
-- A limit is a natural number: 0 stands for every value that is not positive.
use flashgate_mcp.Base.{ℕ, Bool, ◌||◌, ◌==◌, ◌*◌, if◌then◌else◌, Text}
use flashgate_mcp.Errors.{fs, limit_exceeded, Answer, ok, err}
use flashgate_mcp.Os.{Os, ret, ◌>>=◌, ◌>>◌, return}
use flashgate_mcp.Security.{PathGuard, Policy, default_policy, new_path_guard_with_policy}

pub record Limits : Type 0 where
  pub max_write_bytes : ℕ
  pub max_list_entries : ℕ
  pub max_copy_bytes : ℕ
  pub max_delete_entries : ℕ

abbrev pub default_limits : Limits
default_limits = record {
  max_write_bytes = 10 * 1024 * 1024;
  max_list_entries = 1000;
  max_copy_bytes = 10 * 1024 * 1024;
  max_delete_entries = 1000;
}

-- `Entry` of list_directory
pub record Entry : Type 0 where
  pub name : Text
  pub is_dir : Bool
  pub size : ℕ

pub record Metadata : Type 0 where
  pub name : Text
  pub is_dir : Bool
  pub size : ℕ

pub record LocalFileSystem : Type 0 where
  pub guard : PathGuard
  pub limits : Limits

unfoldable pub validate_limits : Limits → Answer Unit
validate_limits l =
    if l.max_write_bytes == 0
      || l.max_list_entries == 0
      || l.max_copy_bytes == 0
      || l.max_delete_entries == 0
    then err (fs limit_exceeded)
    else ok tt

unfoldable pub new_with_policy_and_limits : Text → Policy → Limits → Os (Answer LocalFileSystem)
new_with_policy_and_limits root policy limits = do
  ret (validate_limits limits)
  guard ← new_path_guard_with_policy root policy
  return (record { guard = guard; limits = limits })

pub new_with_policy : Text → Policy → Os (Answer LocalFileSystem)
new_with_policy root policy = new_with_policy_and_limits root policy default_limits

pub new_local_file_system : Text → Os (Answer LocalFileSystem)
new_local_file_system root = new_with_policy root default_policy
