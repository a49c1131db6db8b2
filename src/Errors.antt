-- ===== src/Errors.antt =====
-- The errors that internal/security and internal/fs declare, those of package os that they test
-- for, and the result of a call that may fail.
use flashgate_mcp.Base.{Bool, true, false, ℕ}
pub use flashgate_mcp.Base.Result.{Result, ok, err}

-- The error variables of internal/security/path.go.
pub data SecurityError : Type 0 where
  empty_root root_not_directory absolute_path path_traversal outside_root : SecurityError
  hidden_path_denied unc_path_denied symlink_denied reparse_point_denied : SecurityError

-- The error variables of internal/fs/filesystem.go.
pub data FsError : Type 0 where
  file_too_large path_is_directory path_is_not_directory file_exists directory_not_empty : FsError
  copy_directory_unsupported limit_exceeded not_found same_path move_into_self : FsError
  cross_volume_move_unsupported move_type_mismatch move_path_changed : FsError

-- What a system call can fail with, as `errors.Is` tells it apart.
pub data OsError : Type 0 where
  not_exist exist permission cross_device short_write : OsError
  other : ℕ → OsError

-- `out_of_fuel` is no error of the program: a loop returns it where its bound was too small.
pub data Error : Type 0 where
  security : SecurityError → Error
  fs : FsError → Error
  os : OsError → Error
  out_of_fuel : Error

abbrev pub Answer : Type 0 → Type 0
Answer A = Result Error A

-- `errors.Is(err, os.ErrNotExist)`
unfoldable pub is_not_exist : Error → Bool
is_not_exist (os not_exist) = true
is_not_exist _ = false

-- `errors.Is(err, os.ErrExist)`
unfoldable pub is_exist : Error → Bool
is_exist (os exist) = true
is_exist _ = false

-- `errors.Is(err, syscall.EXDEV)`
unfoldable pub is_cross_device : Error → Bool
is_cross_device (os cross_device) = true
is_cross_device _ = false

-- `errors.Is(err, fs.ErrNotFound)`
unfoldable pub is_not_found : Error → Bool
is_not_found (fs not_found) = true
is_not_found _ = false
