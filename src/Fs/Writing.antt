-- ===== src/Fs/Writing.antt =====
-- write.go, delete.go and copy.go of internal/fs.
pub mod Confinement
pub mod Bounds
use flashgate_mcp.Base.{
  ℕ, suc, Bool, true, false, not, Option, none, some, List, [], ◌∷◌, ◌==◌, ltb, length,
  if◌then◌else◌, Text, text_eq,
}
use flashgate_mcp.Errors.{
  Error, fs, os, short_write, path_is_directory, path_is_not_directory, file_exists,
  directory_not_empty, copy_directory_unsupported, limit_exceeded, Answer, ok, err, is_not_exist,
  is_exist,
}
use flashgate_mcp.Os.{
  Info, DirEntry, Visit, Call, Os, and_then, perform, deferred, ◌>>=◌, ◌>>◌, return, fail, ret,
}
use flashgate_mcp.Filepath.{clean, dir}
use flashgate_mcp.Security.{resolve_existing, resolve_for_create}
use flashgate_mcp.Fs.Types.{LocalFileSystem}

-- `pathsEquivalent` of move_unix.go
unfoldable pub paths_equivalent : Text → Text → Bool
paths_equivalent left right = text_eq (clean left) (clean right)

-- `if errors.Is(err, os.ErrExist) { return ErrFileExists }`
or_file_exists : {A : Type 0} → Answer A → Os (Answer A)
or_file_exists (ok a) = return a
or_file_exists (err e) = if is_exist e then fail (fs file_exists) else fail e

write_content : ℕ → List ℕ → Os (Answer Unit)
write_content file content = do
  written ← perform (Call.write file content)
  if written == length content then return tt else fail (os short_write)

write_opened : Text → List ℕ → Bool → Os (Answer Unit)
unfolding or_file_exists write_content
write_opened safe content overwrite = do
  file ← and_then (perform (Call.open_write safe overwrite 0o600)) or_file_exists
  deferred (Call.close file) (write_content file content)

-- The branches of `Write` behind its look at the path.
write_checked : Text → List ℕ → Bool → Answer Info → Os (Answer Unit)
unfolding write_opened
write_checked safe content overwrite (ok info) =
    if info.is_dir
    then fail (fs path_is_directory)
    else if not overwrite
    then fail (fs file_exists)
    else write_opened safe content overwrite
write_checked safe content overwrite (err e) =
    if not (is_not_exist e) then fail e else write_opened safe content overwrite

pub write : LocalFileSystem → Text → List ℕ → Bool → Os (Answer Unit)
unfolding write_checked
write f path content overwrite = do
  safe ← resolve_for_create f.guard path
  if ltb f.limits.max_write_bytes (length content)
      then fail (fs limit_exceeded)
      else and_then (perform (Call.stat safe)) (write_checked safe content overwrite)

-- The branches of `Mkdir` behind the creation of the last directory.
mkdir_checked : Text → Answer Unit → Os (Answer Bool)
mkdir_checked safe (ok _) = return true
mkdir_checked safe (err e) = if not (is_exist e) then fail e else do
  info ← perform (Call.stat safe)
  if not info.is_dir then fail (fs path_is_not_directory) else return false

pub mkdir : LocalFileSystem → Text → Os (Answer Bool)
unfolding mkdir_checked
mkdir f path = do
  safe ← resolve_for_create f.guard path
  if paths_equivalent safe f.guard.root then return false else do
    perform (Call.mkdir_all (dir safe) 0o700)
    and_then (perform (Call.mkdir safe 0o700)) (mkdir_checked safe)

-- The callback of `ensureRecursiveDeleteWithinLimit` over the entries of the walk.
count_visits : ℕ → Text → ℕ → List Visit → Answer Unit
count_visits limit root entries [] = ok tt
count_visits limit root entries (v ∷ vs) =
    let next = count_visits limit root (if text_eq v.path root then entries else suc entries) vs in
    elim v.failure [
      | some e ↦ err e
      | none ↦
          if text_eq v.path root
          then next
          else if ltb limit (suc entries)
          then err (fs limit_exceeded)
          else next
    ]

pub ensure_recursive_delete_within_limit : LocalFileSystem → Text → Os (Answer Unit)
unfolding count_visits
ensure_recursive_delete_within_limit f root =
    and_then (perform (Call.walk_dir root))
      (λ visits. ret (count_visits f.limits.max_delete_entries root 0 visits))

delete_empty : Text → List DirEntry → Os (Answer Unit)
delete_empty safe [] = perform (Call.remove safe)
delete_empty safe (d ∷ ds) = fail (fs directory_not_empty)

delete_directory : LocalFileSystem → Text → Bool → Os (Answer Unit)
unfolding ensure_recursive_delete_within_limit delete_empty
delete_directory f safe recursive =
    if recursive
    then (do ensure_recursive_delete_within_limit f safe; perform (Call.remove_all safe))
    else do entries ← perform (Call.read_dir safe); delete_empty safe entries

pub delete : LocalFileSystem → Text → Bool → Os (Answer Unit)
unfolding delete_directory
delete f path recursive = do
  safe ← resolve_existing f.guard path
  info ← perform (Call.stat safe)
  if info.is_dir then delete_directory f safe recursive else perform (Call.remove safe)

target_policy_checked : Bool → Answer Info → Os (Answer Unit)
target_policy_checked overwrite (ok info) =
    if not overwrite
    then fail (fs file_exists)
    else if info.is_dir
    then fail (fs path_is_directory)
    else return tt
target_policy_checked overwrite (err e) = if is_not_exist e then return tt else fail e

ensure_target_policy : Text → Bool → Os (Answer Unit)
unfolding target_policy_checked
ensure_target_policy target overwrite =
    and_then (perform (Call.stat target)) (target_policy_checked overwrite)

copy_opened : ℕ → Text → Bool → ℕ → Os (Answer Unit)
unfolding or_file_exists
copy_opened source_file target overwrite perm = do
  target_file ← and_then (perform (Call.open_write target overwrite perm)) or_file_exists
  deferred (Call.close target_file) (perform (Call.copy target_file source_file))

-- `Copy` from the tests on the source on.
copy_checked : LocalFileSystem → Text → Text → Bool → Info → Os (Answer Unit)
unfolding ensure_target_policy copy_opened
copy_checked f source target overwrite info =
    if info.is_dir
    then fail (fs copy_directory_unsupported)
    else if ltb f.limits.max_copy_bytes info.size
    then fail (fs limit_exceeded)
    else do
      ensure_target_policy target overwrite
      source_file ← perform (Call.open_read source)
      deferred (Call.close source_file) (copy_opened source_file target overwrite info.perm)

pub copy : LocalFileSystem → Text → Text → Bool → Os (Answer Unit)
unfolding copy_checked
copy f source target overwrite = do
  source_path ← resolve_existing f.guard source
  target_path ← resolve_for_create f.guard target
  info ← perform (Call.stat source_path)
  copy_checked f source_path target_path overwrite info
