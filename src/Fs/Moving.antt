-- ===== src/Fs/Moving.antt =====
-- move.go and move_unix.go of internal/fs.
pub mod Confinement
pub mod Fuel
use flashgate_mcp.Base.{
  ℕ, zero, suc, Bool, true, false, not, ◌&&◌, ◌||◌, Option, none, some, List, [], ◌∷◌, ◌==◌, length,
  if◌then◌else◌, Text, text_eq,
}
use flashgate_mcp.Errors.{
  Error, fs, out_of_fuel, file_exists, not_found, same_path, move_into_self,
  cross_volume_move_unsupported, move_type_mismatch, move_path_changed, Answer, ok, err,
  is_not_exist, is_cross_device,
}
use flashgate_mcp.Os.{Info, Call, Os, and_then, perform, ◌>>=◌, ◌>>◌, return, fail}
use flashgate_mcp.Filepath.{dot, slash, split_slash, clean, dir, rel, leads_up, join_path}
use flashgate_mcp.Security.{resolve_existing, resolve_for_create}
use flashgate_mcp.Fs.Types.{LocalFileSystem}
use flashgate_mcp.Fs.Reading.{or_not_found}
use flashgate_mcp.Fs.Writing.{paths_equivalent}

-- `os.SameFile`
unfoldable pub same_file : Info → Info → Bool
same_file a b = a.dev == b.dev && a.ino == b.ino

last_non_empty : Text → List Text → Text
last_non_empty found [] = found
last_non_empty found (p ∷ ps) = last_non_empty (if text_eq p [] then found else p) ps

-- `filepath.Base`
base : Text → Text
unfolding last_non_empty
base [] = dot
base (c ∷ s) = last_non_empty slash (split_slash (c ∷ s))

-- The elements that were missing are put behind the effective path, the outermost first.
rejoin : Text → List Text → Text
rejoin effective [] = effective
rejoin effective (p ∷ ps) = rejoin (join_path effective p) ps

-- One round of `effectivePathForComparison`; `missing` has the last element in front, and `outer`
-- goes on with the parent.
effective_step : List Text → (Error → Os (Answer Text)) → Answer Text → Os (Answer Text)
unfolding rejoin
effective_step missing outer (ok effective) = return (clean (rejoin effective missing))
effective_step missing outer (err e) = if not (is_not_exist e) then fail e else outer e

-- Its loop, with fuel for the parents.
pub effective_loop : ℕ → Text → List Text → Os (Answer Text)
unfolding effective_step
effective_loop zero current missing = fail out_of_fuel
effective_loop (suc fuel) current missing =
    let outer = effective_loop fuel (dir current) (base current ∷ missing) in
    and_then (perform (Call.eval_symlinks current))
      (effective_step missing (λ e. if text_eq (dir current) current then fail e else outer))

pub effective_path_for_comparison : Text → Os (Answer Text)
unfolding effective_loop base
effective_path_for_comparison path =
    effective_loop (suc (length (split_slash path))) (clean path) []

-- One round of `pathsOnSameVolume`; `outer` goes on with the parent.
same_volume_step : Info → (Error → Os (Answer Bool)) → Answer Info → Os (Answer Bool)
same_volume_step source outer (ok target) = return (source.dev == target.dev)
same_volume_step source outer (err e) = if not (is_not_exist e) then fail e else outer e

-- Its loop over the target and its parents, with fuel.
pub same_volume_loop : ℕ → Info → Text → Os (Answer Bool)
unfolding same_volume_step
same_volume_loop zero source probe = fail out_of_fuel
same_volume_loop (suc fuel) source probe =
    let outer = same_volume_loop fuel source (dir probe) in
    and_then (perform (Call.stat probe))
      (same_volume_step source (λ e. if text_eq (dir probe) probe then fail e else outer))

pub paths_on_same_volume : Text → Text → Os (Answer Bool)
unfolding same_volume_loop
paths_on_same_volume source target = do
  info ← perform (Call.stat source)
  same_volume_loop (suc (length (split_slash target))) info target

descends : Option Text → Bool
descends none = false
descends (some relative) = not (text_eq relative dot) && not (leads_up relative)

is_strict_descendant : Text → Text → Bool
unfolding descends
is_strict_descendant parent candidate = descends (rel parent candidate)

rename_result : Answer Unit → Os (Answer Unit)
rename_result (ok _) = return tt
rename_result (err e) =
    if is_cross_device e then fail (fs cross_volume_move_unsupported) else fail e

rename_on_same_volume : Text → Text → Bool → Os (Answer Unit)
unfolding rename_result
rename_on_same_volume source target same_volume =
    if not same_volume
    then fail (fs cross_volume_move_unsupported)
    else and_then (perform (Call.rename source target)) rename_result

-- A file that is no longer the one that was seen, or of another kind.
has_changed : Info → Info → Bool
unfolding same_file
has_changed expected current =
    expected.is_dir && not current.is_dir
    || not expected.is_dir && current.is_dir
    || not (same_file expected current)

-- The second look at the target; `expected` is what was there before, if anything was.
revalidate_target : Info → Option Info → Answer Info → Os (Answer Unit)
unfolding has_changed
revalidate_target source (some expected) (err e) =
    if is_not_exist e then fail (fs move_path_changed) else fail e
revalidate_target source (some expected) (ok current) =
    if has_changed expected current
    then fail (fs move_path_changed)
    else if same_file source current
    then fail (fs same_path)
    else return tt
revalidate_target source none (ok current) = fail (fs move_path_changed)
revalidate_target source none (err e) = if not (is_not_exist e) then fail e else return tt

revalidate_source : Text → Info → Option Info → Info → Os (Answer Unit)
unfolding revalidate_target
revalidate_source target expected_source expected_target current =
    if has_changed expected_source current
    then fail (fs move_path_changed)
    else and_then (perform (Call.stat target)) (revalidate_target current expected_target)

revalidate_move_state : Text → Text → Info → Option Info → Os (Answer Unit)
unfolding revalidate_source
revalidate_move_state source target expected_source expected_target = do
  current ← and_then (perform (Call.stat source)) or_not_found
  revalidate_source target expected_source expected_target current

-- `targetExists`, with the info that goes with it.
existing_target : Answer Info → Os (Answer (Option Info))
existing_target (ok info) = return (some info)
existing_target (err e) = if not (is_not_exist e) then fail e else return none

is_same_as : Info → Option Info → Bool
is_same_as source none = false
is_same_as source (some target) = same_file source target

-- The tests on an existing target, just before the second look.
check_overwrite : Info → Option Info → Bool → Os (Answer Unit)
check_overwrite source none overwrite = return tt
check_overwrite source (some target) overwrite =
    if not overwrite
    then fail (fs file_exists)
    else if source.is_dir || target.is_dir
    then fail (fs move_type_mismatch)
    else return tt

-- `Move` behind the volume test.
move_within : Text → Text → Bool → Info → Option Info → Bool → Os (Answer Unit)
unfolding check_overwrite revalidate_move_state rename_on_same_volume
move_within source target overwrite source_info target_info same_volume =
    if not same_volume then rename_on_same_volume source target false else do
      check_overwrite source_info target_info overwrite
      revalidate_move_state source target source_info target_info
      rename_on_same_volume source target same_volume

-- `Move` behind the comparison of the two files.
move_effective : Text → Text → Bool → Info → Option Info → Os (Answer Unit)
unfolding move_within is_strict_descendant
move_effective source target overwrite source_info target_info = do
  effective_source ← perform (Call.eval_symlinks source)
  effective_target ← effective_path_for_comparison target
  if paths_equivalent effective_source effective_target
      then fail (fs same_path)
      else if source_info.is_dir && is_strict_descendant effective_source effective_target
      then fail (fs move_into_self)
      else do
        same_volume ← paths_on_same_volume source target
        move_within source target overwrite source_info target_info same_volume

-- `Move` on the two resolved paths.
move_resolved : Text → Text → Bool → Os (Answer Unit)
unfolding move_effective existing_target is_same_as
move_resolved source target overwrite =
    if paths_equivalent source target then fail (fs same_path) else do
      source_info ← and_then (perform (Call.stat source)) or_not_found
      target_info ← and_then (perform (Call.stat target)) existing_target
      if is_same_as source_info target_info
          then fail (fs same_path)
          else move_effective source target overwrite source_info target_info

pub move : LocalFileSystem → Text → Text → Bool → Os (Answer Unit)
unfolding move_resolved
move f source target overwrite = do
  source_path ← and_then (resolve_existing f.guard source) or_not_found
  target_path ← resolve_for_create f.guard target
  move_resolved source_path target_path overwrite
