-- ===== src/Mcp/Tools/Outcome.antt =====
-- tool_error.go of internal/mcp/tools: what a tool comes to, and the errors that a client is told of.
use flashgate_mcp.Base.{Option, none, some, String}
use flashgate_mcp.Errors.{
  Error, security, fs, os, out_of_fuel, SecurityError, empty_root, root_not_directory, FsError,
  file_too_large, path_is_directory, path_is_not_directory, file_exists, directory_not_empty,
  copy_directory_unsupported, same_path, move_into_self, cross_volume_move_unsupported,
  move_type_mismatch, move_path_changed, not_exist, exist, permission,
}
use flashgate_mcp.Json.{Json}

pub data Category : Type 0 where
  not_found already_exists access_denied invalid_path unsupported_path_type : Category
  unsupported_operation limit_exceeded invalid_arguments : Category

abbrev pub category_text : Category → String
category_text not_found = "not_found"
category_text already_exists = "already_exists"
category_text access_denied = "access_denied"
category_text invalid_path = "invalid_path"
category_text unsupported_path_type = "unsupported_path_type"
category_text unsupported_operation = "unsupported_operation"
category_text limit_exceeded = "limit_exceeded"
category_text invalid_arguments = "invalid_arguments"

-- The message of the error of a category; of a file system's, the category is its end.
abbrev pub message_text : Category → String
message_text not_found = "filesystem error: not found"
message_text already_exists = "filesystem error: already exists"
message_text access_denied = "filesystem error: access denied"
message_text invalid_path = "filesystem error: invalid path"
message_text unsupported_path_type = "filesystem error: unsupported path type"
message_text unsupported_operation = "filesystem error: unsupported operation"
message_text limit_exceeded = "filesystem error: limit exceeded"
message_text invalid_arguments = "invalid arguments"

-- A result, an error that the client is told of, or another error.
pub data Executed : Type 0 where
  done : Json → Executed
  refused : Category → Executed
  broken : Executed

classify_security : SecurityError → Option Category
classify_security empty_root = none
classify_security root_not_directory = none
classify_security _ = some invalid_path

classify_fs : FsError → Option Category
classify_fs same_path = some invalid_path
classify_fs move_into_self = some invalid_path
classify_fs move_path_changed = some invalid_path
classify_fs FsError.not_found = some Category.not_found
classify_fs file_exists = some already_exists
classify_fs path_is_directory = some unsupported_path_type
classify_fs path_is_not_directory = some unsupported_path_type
classify_fs copy_directory_unsupported = some unsupported_path_type
classify_fs move_type_mismatch = some unsupported_path_type
classify_fs directory_not_empty = some unsupported_path_type
classify_fs cross_volume_move_unsupported = some unsupported_operation
classify_fs file_too_large = some Category.limit_exceeded
classify_fs FsError.limit_exceeded = some Category.limit_exceeded

-- `classifyFilesystemError`; `none` is its unknown category.
unfoldable pub classify_filesystem_error : Error → Option Category
unfolding classify_security classify_fs
classify_filesystem_error (security e) = classify_security e
classify_filesystem_error (fs e) = classify_fs e
classify_filesystem_error (os not_exist) = some Category.not_found
classify_filesystem_error (os exist) = some already_exists
classify_filesystem_error (os permission) = some access_denied
classify_filesystem_error (os _) = none
classify_filesystem_error out_of_fuel = none

-- `mapFilesystemError`
unfoldable pub map_filesystem_error : Error → Executed
map_filesystem_error e = elim (classify_filesystem_error e) [
  | none ↦ broken
  | some category ↦ refused category
]
