-- ===== src/Fs/Moving/Confinement.antt =====
-- Move of internal/fs: the calls that it makes.
use flashgate_mcp.Base.{
  ℕ, zero, suc, false, not, ◌&&◌, ◌||◌, List, [], ◌∷◌, length, Text, Bool, text_eq, Option, none,
  some,
}
use flashgate_mcp.Errors.{Answer, ok, err, is_not_exist, is_cross_device}
use flashgate_mcp.Os.{Info, Call, ret, perform}
use flashgate_mcp.Filepath.{split_slash, clean, dir}
use flashgate_mcp.Os.Rules.{
  Safe, Anything, Safe-return, Safe-fail, Safe-call, Safe-if, Safe-answer, Safe-bind, Safe-attempt,
}
use flashgate_mcp.Security.Lexical.{IsRooted}
use flashgate_mcp.Security.Looking.{IsBelow}
use flashgate_mcp.Security.Confinement.{
  Confined, resolve_existing-Confined, resolve_for_create-Confined,
}
use flashgate_mcp.Fs.Types.{LocalFileSystem}
use flashgate_mcp.Fs.Reading.Confinement.{or_not_found-Safe}
use flashgate_mcp.Fs.Writing.{paths_equivalent}
use flashgate_mcp.Fs.Moving.{
  same_file, base, effective_loop, effective_path_for_comparison, same_volume_loop,
  paths_on_same_volume, is_strict_descendant, rename_result, rename_on_same_volume, has_changed,
  revalidate_target, revalidate_source, revalidate_move_state, existing_target, is_same_as,
  check_overwrite, move_within, move_effective, move_resolved, move,
}

module _ (bs : List Text) where
  effective_loop-Confined :
      (fuel : ℕ) (current : Text) (missing : List Text)
      → Safe (Confined bs) Anything (effective_loop fuel current missing)
  unfolding effective_loop
  effective_loop-Confined zero current missing = Safe-fail _
  effective_loop-Confined (suc fuel) current missing =
      Safe-attempt {R = Anything} _ _ (Safe-call (Call.eval_symlinks current) ret tt Safe-answer)
        (λ effective _. Safe-return _ tt)
        λ e.
          Safe-if (not (is_not_exist e)) _ _ (λ _. Safe-fail _)
            λ _.
              Safe-if (text_eq (dir current) current) _ _ (λ _. Safe-fail _)
                λ _. effective_loop-Confined fuel (dir current) (base current ∷ missing)

  same_volume_loop-Confined :
      (fuel : ℕ) (source : Info) (probe : Text)
      → Safe (Confined bs) Anything (same_volume_loop fuel source probe)
  unfolding same_volume_loop
  same_volume_loop-Confined zero source probe = Safe-fail _
  same_volume_loop-Confined (suc fuel) source probe =
      Safe-attempt {R = Anything} _ _ (Safe-call (Call.stat probe) ret tt Safe-answer)
        (λ target _. Safe-return _ tt)
        λ e.
          Safe-if (not (is_not_exist e)) _ _ (λ _. Safe-fail _)
            λ _.
              Safe-if (text_eq (dir probe) probe) _ _ (λ _. Safe-fail _)
                λ _. same_volume_loop-Confined fuel source (dir probe)

  rename_result-Confined : (r : Answer Unit) → Safe (Confined bs) Anything (rename_result r)
  unfolding rename_result
  rename_result-Confined (ok _) = Safe-return _ tt
  rename_result-Confined (err e) =
      Safe-if (is_cross_device e) _ _ (λ _. Safe-fail _) (λ _. Safe-fail _)

  rename-Confined :
      (source target : Text) (same_volume : Bool)
      → IsBelow bs source
      → IsBelow bs target
      → Safe (Confined bs) Anything (rename_on_same_volume source target same_volume)
  unfolding rename_on_same_volume
  rename-Confined source target same_volume hs ht =
      Safe-if (not same_volume) _ _ (λ _. Safe-fail _)
        λ _.
          Safe-attempt {R = Anything} _ _
            (Safe-call (Call.rename source target) ret (hs, ht) Safe-answer)
            (λ r _. rename_result-Confined (ok r)) (λ e. rename_result-Confined (err e))

  stat-Confined : (p : Text) → Safe (Confined bs) Anything (perform (Call.stat p))
  stat-Confined p = Safe-call (Call.stat p) ret tt Safe-answer

  revalidate_target-Confined :
      (source : Info) (expected : Option Info) (r : Answer Info)
      → Safe (Confined bs) Anything (revalidate_target source expected r)
  unfolding revalidate_target
  revalidate_target-Confined source (some expected) (err e) =
      Safe-if (is_not_exist e) _ _ (λ _. Safe-fail _) (λ _. Safe-fail _)
  revalidate_target-Confined source (some expected) (ok current) =
      Safe-if (has_changed expected current) _ _ (λ _. Safe-fail _)
        λ _. Safe-if (same_file source current) _ _ (λ _. Safe-fail _) (λ _. Safe-return _ tt)
  revalidate_target-Confined source none (ok current) = Safe-fail _
  revalidate_target-Confined source none (err e) =
      Safe-if (not (is_not_exist e)) _ _ (λ _. Safe-fail _) (λ _. Safe-return _ tt)

  revalidate-Confined :
      (source target : Text) (s : Info) (t : Option Info)
      → Safe (Confined bs) Anything (revalidate_move_state source target s t)
  unfolding revalidate_move_state revalidate_source
  revalidate-Confined source target s t =
      Safe-bind {R = Anything} _ _
        (or_not_found-Safe (Confined bs) Anything _ (stat-Confined source))
        λ current _.
          Safe-if (has_changed s current) _ _ (λ _. Safe-fail _)
            λ _.
              Safe-attempt {R = Anything} _ _ (stat-Confined target)
                (λ i _. revalidate_target-Confined current t (ok i))
                (λ e. revalidate_target-Confined current t (err e))

  check_overwrite-Confined :
      (s : Info) (t : Option Info) (overwrite : Bool)
      → Safe (Confined bs) Anything (check_overwrite s t overwrite)
  unfolding check_overwrite
  check_overwrite-Confined s none overwrite = Safe-return _ tt
  check_overwrite-Confined s (some t) overwrite =
      Safe-if (not overwrite) _ _ (λ _. Safe-fail _)
        λ _. Safe-if (s.is_dir || t.is_dir) _ _ (λ _. Safe-fail _) (λ _. Safe-return _ tt)

  existing_target-Confined : (r : Answer Info) → Safe (Confined bs) Anything (existing_target r)
  unfolding existing_target
  existing_target-Confined (ok info) = Safe-return _ tt
  existing_target-Confined (err e) =
      Safe-if (not (is_not_exist e)) _ _ (λ _. Safe-fail _) (λ _. Safe-return _ tt)

  module _ (source target : Text) (overwrite : Bool) (hs : IsBelow bs source)
      (ht : IsBelow bs target) where
    move_within-Confined :
        (s : Info) (t : Option Info) (same_volume : Bool)
        → Safe (Confined bs) Anything (move_within source target overwrite s t same_volume)
    unfolding move_within
    move_within-Confined s t same_volume =
        Safe-if (not same_volume) _ _ (λ _. rename-Confined source target false hs ht)
          λ _. Safe-bind {R = Anything} _ _ (check_overwrite-Confined s t overwrite) λ _ _.
            Safe-bind {R = Anything} _ _ (revalidate-Confined source target s t)
              λ _ _. rename-Confined source target same_volume hs ht

    move_effective-Confined :
        (s : Info) (t : Option Info)
        → Safe (Confined bs) Anything (move_effective source target overwrite s t)
    unfolding move_effective effective_path_for_comparison paths_on_same_volume
    move_effective-Confined s t =
        Safe-bind {R = Anything} _ _ (Safe-call (Call.eval_symlinks source) ret tt Safe-answer)
          λ es _.
            Safe-bind {R = Anything} _ _
              (effective_loop-Confined (suc (length (split_slash target))) (clean target) [])
              λ et _.
                Safe-if (paths_equivalent es et) _ _ (λ _. Safe-fail _)
                  λ _.
                    Safe-if (s.is_dir && is_strict_descendant es et) _ _ (λ _. Safe-fail _)
                      λ _.
                        Safe-bind {R = Anything} _ _
                          (Safe-bind {R = Anything} _ _ (stat-Confined source) λ info _.
                            same_volume_loop-Confined (suc (length (split_slash target))) info
                              target)
                          λ same _. move_within-Confined s t same

    move_resolved-Confined : Safe (Confined bs) Anything (move_resolved source target overwrite)
    unfolding move_resolved
    move_resolved-Confined =
        Safe-if (paths_equivalent source target) _ _ (λ _. Safe-fail _)
          λ _.
            Safe-bind {R = Anything} _ _
              (or_not_found-Safe (Confined bs) Anything _ (stat-Confined source))
              λ s _.
                Safe-bind {R = Anything} _ _
                  (Safe-attempt {R = Anything} _ _ (stat-Confined target)
                    (λ i _. existing_target-Confined (ok i))
                    (λ e. existing_target-Confined (err e)))
                  λ t _.
                    Safe-if (is_same_as s t) _ _ (λ _. Safe-fail _) λ _. move_effective-Confined s t

-- For a guard whose root is clean and absolute, every call that Move makes, but os.Stat,
-- EvalSymlinks and those on open files, names only paths below the root, whatever the system
-- replies.
pub move-Confined :
    (f : LocalFileSystem) (bs : List Text)
    → IsRooted f.guard bs
    → (source target : Text) (overwrite : Bool)
    → Safe (Confined bs) Anything (move f source target overwrite)
unfolding move
move-Confined f bs hf source target overwrite =
    Safe-bind _ _
      (or_not_found-Safe (Confined bs) _ _ (resolve_existing-Confined f.guard bs hf source))
      λ s (ns, a, e).
        Safe-bind _ _ (resolve_for_create-Confined f.guard bs hf target) λ t (ms, b, d).
          move_resolved-Confined bs s t overwrite (ns, a.proper, e) (ms, b.proper, d)
