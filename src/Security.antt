-- ===== src/Security.antt =====
-- internal/security/path.go with policy_unix.go: the guard that resolves the paths of a client
-- below the root. The tests on paths are functions; what asks the file system is a tree of calls.
pub mod Inside
pub mod Lexical
pub mod Looking
pub mod Confinement
pub mod Snapshot
pub mod Parents
pub mod Fuel
pub mod Startup
pub mod Opening
pub mod Samples
mod Tests
use flashgate_mcp.Base.{
  ℕ, zero, suc, ◌+◌, Bool, true, false, not, ◌&&◌, ◌||◌, Option, none, some, List, [], ◌∷◌,
  if◌then◌else◌, Text, text_eq, has_prefix, is_blank, length,
}
use flashgate_mcp.Errors.{
  Error, security, out_of_fuel, Answer, ok, err, is_not_exist, SecurityError, empty_root,
  root_not_directory, absolute_path, path_traversal, outside_root, hidden_path_denied,
  unc_path_denied, symlink_denied, reparse_point_denied,
}
use flashgate_mcp.Os.{
  Info, Call, getwd, lstat, stat, eval_symlinks, Os, ret, and_then, perform, ◌>>=◌, ◌>>◌, return,
  fail,
}
use flashgate_mcp.Filepath.{
  dot, up, slash, split_slash, clean, is_abs, join_path, dir, rel, leads_up,
}

pub record Policy : Type 0 where
  pub allow_hidden_files : Bool
  pub allow_unc_paths : Bool
  pub follow_symlinks : Bool

abbrev pub default_policy : Policy
default_policy = record {
  allow_hidden_files = false;
  allow_unc_paths = false;
  follow_symlinks = false;
}

pub record PathGuard : Type 0 where
  pub root : Text
  pub effective_root : Text
  pub policy : Policy

-- `\\` or `//` in front
unfoldable pub is_unc_path : Text → Bool
unfolding has_prefix
is_unc_path path = has_prefix path (b'\\' ∷ b'\\' ∷ []) || has_prefix path (b'/' ∷ b'/' ∷ [])

pub validate_path_metadata : Text → Policy → Os (Answer Unit)
validate_path_metadata path policy = do
  info ← perform (lstat path)
  if not policy.follow_symlinks && info.symlink then fail (security symlink_denied) else return tt

pub eval_effective_path : Text → Os (Answer Text)
eval_effective_path path = perform (eval_symlinks path)

-- `filepath.Abs`
pub abs : Text → Os (Answer Text)
abs path =
    if is_abs path then return (clean path) else do wd ← perform getwd; return (join_path wd path)

unfoldable pub normalize_user_path : Text → Text
normalize_user_path user_path = if is_blank user_path then dot else clean user_path

unfoldable pub is_traversal_path : Text → Bool
unfolding leads_up
is_traversal_path path = leads_up path

unfoldable pub is_hidden_name : Text → Bool
unfolding text_eq has_prefix
is_hidden_name name =
    not (text_eq name []) && not (text_eq name dot) && not (text_eq name up) && has_prefix name dot

any_hidden : List Text → Bool
any_hidden [] = false
any_hidden (p ∷ ps) = is_hidden_name p || any_hidden ps

has_hidden_path_component : Text → Bool
unfolding any_hidden
has_hidden_path_component path = if text_eq path dot then false else any_hidden (split_slash path)

-- The test on the relative path that `filepath.Rel` gives.
stays_inside : Option Text → Bool
stays_inside none = false
stays_inside (some relative) = text_eq relative dot || not (leads_up relative)

pub is_inside_root : Text → Text → Bool
unfolding stays_inside
is_inside_root root resolved_path = stays_inside (rel root resolved_path)

-- The loop of `validateExistingPathPolicy` over the components below the root.
validate_components : Policy → Text → List Text → Os (Answer Unit)
validate_components policy current [] = return tt
validate_components policy current (p ∷ ps) =
    let skipped = validate_components policy current ps in
    if text_eq p [] || text_eq p dot
    then skipped
    else if not policy.allow_hidden_files && is_hidden_name p
    then fail (security hidden_path_denied)
    else do
      validate_path_metadata (join_path current p) policy
      validate_components policy (join_path current p) ps

validate_relative : PathGuard → Option Text → Os (Answer Unit)
unfolding validate_components
validate_relative g none = fail (security outside_root)
validate_relative g (some relative) =
    if text_eq relative dot
    then validate_path_metadata g.root g.policy
    else validate_components g.policy g.root (split_slash relative)

pub validate_existing_path_policy : PathGuard → Text → Os (Answer Unit)
unfolding validate_relative
validate_existing_path_policy g path = validate_relative g (rel g.root path)

pub resolve_lexical : PathGuard → Text → Os (Answer Text)
resolve_lexical g user_path =
    let path = normalize_user_path user_path in
    if not g.policy.allow_unc_paths && is_unc_path path
    then fail (security unc_path_denied)
    else if is_abs path
    then fail (security absolute_path)
    else if is_traversal_path path
    then fail (security path_traversal)
    else if not g.policy.allow_hidden_files && has_hidden_path_component path
    then fail (security hidden_path_denied)
    else do
      resolved ← abs (join_path g.root path)
      if is_inside_root g.root resolved then return resolved else fail (security outside_root)

-- `if !isInsideRoot(root, effective)` in front of the result.
pub inside_or_fail : Text → Text → Text → Os (Answer Text)
inside_or_fail root effective path =
    if is_inside_root root effective then return path else fail (security outside_root)

pub resolve_existing : PathGuard → Text → Os (Answer Text)
unfolding inside_or_fail
resolve_existing g user_path = do
  path ← resolve_lexical g user_path
  validate_existing_path_policy g path
  effective ← eval_effective_path path
  inside_or_fail g.effective_root effective path

-- Goes on with the parent where something does not exist, and fails with any other error.
parent_on_missing :
    {A : Type 0} → Os (Answer Text) → (A → Os (Answer Text)) → Answer A → Os (Answer Text)
parent_on_missing next found (ok a) = found a
parent_on_missing next found (err e) = if is_not_exist e then next else fail e

-- The loop of `resolveExistingParent`, with fuel for the parents that it may visit.
pub existing_parent_loop : PathGuard → ℕ → Text → Os (Answer Text)
unfolding parent_on_missing
existing_parent_loop g zero current = fail out_of_fuel
existing_parent_loop g (suc fuel) current =
    let parent = dir current in
    let next = existing_parent_loop g fuel parent in
    if text_eq parent current
    then fail (security outside_root)
    else if not (is_inside_root g.root parent)
    then fail (security outside_root)
    else and_then (validate_existing_path_policy g parent) (
        parent_on_missing next
          (λ _. and_then (eval_effective_path parent) (parent_on_missing next return)))

-- One more round than the path has elements.
pub resolve_existing_parent : PathGuard → Text → Os (Answer Text)
unfolding existing_parent_loop
resolve_existing_parent g path = existing_parent_loop g (length (split_slash path)) (clean path)

-- The branches of `ResolveForCreate` behind the first look at the path itself.
create_checked : PathGuard → Text → Answer Text → Os (Answer Text)
unfolding inside_or_fail
create_checked g path (ok effective) = do
  validate_existing_path_policy g path
  inside_or_fail g.effective_root effective path
create_checked g path (err e) =
    if is_not_exist e
    then (do
      effective_parent ← resolve_existing_parent g path
      inside_or_fail g.effective_root effective_parent path)
    else fail e

pub resolve_for_create : PathGuard → Text → Os (Answer Text)
unfolding create_checked
resolve_for_create g user_path = do
  path ← resolve_lexical g user_path
  and_then (eval_effective_path path) (create_checked g path)

pub resolve : PathGuard → Text → Os (Answer Text)
unfolding resolve_for_create
resolve g user_path = resolve_for_create g user_path

-- What `AllowListEntry` makes of the error of the metadata check.
hides_entry : Error → Bool
hides_entry (security hidden_path_denied) = true
hides_entry (security symlink_denied) = true
hides_entry (security reparse_point_denied) = true
hides_entry _ = false

list_entry_checked : PathGuard → Text → Answer Unit → Os (Answer Bool)
unfolding hides_entry
list_entry_checked g entry_path (ok _) = do
  effective ← eval_effective_path entry_path
  return (is_inside_root g.effective_root effective)
list_entry_checked g entry_path (err e) = if hides_entry e then return false else fail e

pub allow_list_entry : PathGuard → Text → Text → Os (Answer Bool)
unfolding list_entry_checked
allow_list_entry g parent name =
    if not g.policy.allow_hidden_files && is_hidden_name name
    then return false
    else if not (is_inside_root g.root (join_path parent name))
    then fail (security outside_root)
    else and_then (validate_path_metadata (join_path parent name) g.policy)
        (list_entry_checked g (join_path parent name))

-- The last test of `NewPathGuardWithPolicy`, on what stands at the effective root.
guard_of : Text → Text → Policy → Info → Os (Answer PathGuard)
guard_of root effective_root policy info =
    if info.is_dir
    then return (record { root = root; effective_root = effective_root; policy = policy })
    else fail (security root_not_directory)

-- `NewPathGuardWithPolicy` from the absolute root on.
open_root : Policy → Text → Os (Answer PathGuard)
unfolding guard_of
open_root policy root =
    if not policy.allow_unc_paths && is_unc_path root then fail (security unc_path_denied) else do
      validate_path_metadata root policy
      effective_root ← eval_effective_path root
      info ← perform (stat effective_root)
      guard_of root effective_root policy info

pub new_path_guard_with_policy : Text → Policy → Os (Answer PathGuard)
unfolding open_root
new_path_guard_with_policy root policy =
    if is_blank root
    then fail (security empty_root)
    else if not policy.allow_unc_paths && is_unc_path root
    then fail (security unc_path_denied)
    else do absolute_root ← abs (clean root); open_root policy absolute_root

pub new_path_guard : Text → Os (Answer PathGuard)
unfolding new_path_guard_with_policy
new_path_guard root = new_path_guard_with_policy root default_policy
