-- ===== src/Fs/Reading.antt =====
-- list.go, read.go and stat.go of internal/fs.
pub mod Confinement
pub mod Bounds
use flashgate_mcp.Base.{
  ℕ, Bool, List, [], ◌∷◌, ◌++◌, ◌==◌, ltb, leb, length, if◌then◌else◌, Text, not,
}
use flashgate_mcp.Errors.{
  Error, fs, file_too_large, path_is_directory, limit_exceeded, not_found, Answer, ok, err,
  is_not_exist,
}
use flashgate_mcp.Os.{Info, DirEntry, Call, Os, and_then, perform, ◌>>=◌, ◌>>◌, return, fail}
use flashgate_mcp.Security.{resolve_existing, allow_list_entry}
use flashgate_mcp.Fs.Types.{Entry, Metadata, LocalFileSystem}

abbrev entry_of : DirEntry → Info → Entry
entry_of d info = record { name = d.name; is_dir = d.is_dir; size = info.size }

-- The loop of `List`; `result` holds the entries so far.
list_entries : LocalFileSystem → Text → List DirEntry → List Entry → Os (Answer (List Entry))
list_entries f path [] result = return result
list_entries f path (d ∷ ds) result = do
  allowed ← allow_list_entry f.guard path d.name
  let skipped = list_entries f path ds result
  if not allowed
      then skipped
      else if leb f.limits.max_list_entries (length result)
      then fail (fs limit_exceeded)
      else do
        info ← perform (Call.entry_info path d.name)
        list_entries f path ds (result ++ entry_of d info ∷ [])

pub list : LocalFileSystem → Text → Os (Answer (List Entry))
unfolding list_entries
list f path = do
  safe ← resolve_existing f.guard path
  entries ← perform (Call.read_dir safe)
  list_entries f safe entries []

-- The tests of `Read` on what stands at the path, and the read.
read_checked : Text → ℕ → Info → Os (Answer (List ℕ))
read_checked safe max_bytes info =
    if info.is_dir
    then fail (fs path_is_directory)
    else if max_bytes == 0
    then fail (fs file_too_large)
    else if ltb max_bytes info.size
    then fail (fs file_too_large)
    else perform (Call.read_file safe)

pub read : LocalFileSystem → Text → ℕ → Os (Answer (List ℕ))
unfolding read_checked
read f path max_bytes = do
  safe ← resolve_existing f.guard path
  info ← perform (Call.stat safe)
  read_checked safe max_bytes info

-- `if errors.Is(err, os.ErrNotExist) { return ErrNotFound }`
unfoldable pub or_not_found : {A : Type 0} → Answer A → Os (Answer A)
or_not_found (ok a) = return a
or_not_found (err e) = if is_not_exist e then fail (fs not_found) else fail e

pub stat : LocalFileSystem → Text → Os (Answer Metadata)
unfolding or_not_found
stat f path = do
  safe ← and_then (resolve_existing f.guard path) or_not_found
  info ← and_then (perform (Call.stat safe)) or_not_found
  return (record { name = info.name; is_dir = info.is_dir; size = info.size })
