-- ===== src/Security/Opening.antt =====
-- NewPathGuardWithPolicy of internal/security, against a system whose state changes: the calls by
-- which a guard is opened, and its root.
use flashgate_mcp.Base.{
  ◌≡◌, ◌∙◌, ap, subst, inl, inr, true, not, ◌&&◌, List, Text, is_blank, arith, Bool-cases,
}
use flashgate_mcp.Errors.{ok}
use flashgate_mcp.Os.{Call, Reply, Info, getwd, lstat, stat, eval_symlinks, perform, ret, return}
use flashgate_mcp.Os.Rules.{
  Safe, Anything, Safe-return, Safe-fail, Safe-call, Safe-if, Safe-answer, Safe-bind,
}
use flashgate_mcp.Os.World.{World, drive, drive-bind_ok, drive-guard_ok}
use flashgate_mcp.Filepath.{clean, is_abs, join_path}
use flashgate_mcp.Filepath.Absolute.{IsAbsolute, clean-IsAbsolute, join_path-IsAbsolute}
use flashgate_mcp.Filepath.Cleaning.{clean_idempotent}
use flashgate_mcp.Security.{
  PathGuard, Policy, abs, is_unc_path, guard_of, open_root, new_path_guard_with_policy,
  validate_path_metadata, eval_effective_path,
}
use flashgate_mcp.Security.Lexical.{IsRooted, is_abs-rooted}

-- The calls that only look.
abbrev pub Inspecting : Call → Type 0
Inspecting getwd = Unit
Inspecting (lstat p) = Unit
Inspecting (stat p) = Unit
Inspecting (eval_symlinks p) = Unit
Inspecting _ = ⊥

abs-Inspecting : (path : Text) → Safe Inspecting Anything (abs path)
unfolding abs
abs-Inspecting path =
    Safe-if (is_abs path) _ _ (λ _. Safe-return _ tt)
      λ _.
        Safe-bind {R = Anything} _ _ (Safe-call getwd ret tt Safe-answer) (λ wd _. Safe-return _ tt)

validate_path_metadata-Inspecting :
    (path : Text) (policy : Policy) → Safe Inspecting Anything (validate_path_metadata path policy)
unfolding validate_path_metadata
validate_path_metadata-Inspecting path policy =
    Safe-bind {R = Anything} _ _ (Safe-call (lstat path) ret tt Safe-answer) λ info _.
      Safe-if (not policy.follow_symlinks && info.symlink) _ _ (λ _. Safe-fail _)
        (λ _. Safe-return _ tt)

open_root-Inspecting :
    (policy : Policy) (root : Text) → Safe Inspecting Anything (open_root policy root)
unfolding open_root eval_effective_path guard_of
open_root-Inspecting policy root =
    Safe-if (not policy.allow_unc_paths && is_unc_path root) _ _ (λ _. Safe-fail _)
      λ _. Safe-bind {R = Anything} _ _ (validate_path_metadata-Inspecting root policy) λ _ _.
        Safe-bind {R = Anything} _ _ (Safe-call (eval_symlinks root) ret tt Safe-answer)
          λ effective _.
            Safe-bind {R = Anything} _ _ (Safe-call (stat effective) ret tt Safe-answer)
              λ info _. Safe-if info.is_dir _ _ (λ _. Safe-return _ tt) (λ _. Safe-fail _)

pub new_path_guard-Inspecting :
    (root : Text) (policy : Policy)
    → Safe Inspecting Anything (new_path_guard_with_policy root policy)
unfolding new_path_guard_with_policy
new_path_guard-Inspecting root policy =
    Safe-if (is_blank root) _ _ (λ _. Safe-fail _)
      λ _.
        Safe-if (not policy.allow_unc_paths && is_unc_path root) _ _ (λ _. Safe-fail _)
          λ _.
            Safe-bind {R = Anything} _ _ (abs-Inspecting (clean root))
              (λ absolute _. open_root-Inspecting policy absolute)

clean-is_abs : (root : Text) → is_abs root ≡ true → is_abs (clean root) ≡ true
clean-is_abs root a =
    let (ns, proper, names) = clean-IsAbsolute root a in ap is_abs names ∙ is_abs-rooted 0 ns

-- A guard for a root: below some names, which are those of an absolute root.
pub record Guards (root : Text) (g : PathGuard) (bs : List Text) : Type 0 where
  pub rooted : IsRooted g bs
  pub root_eq : is_abs root ≡ true → g.root ≡ clean root

module _ {S : Type 0} (reply : (c : Call) → S → Reply c × S)
    (hw : (s : S) (wd : Text) → (reply getwd s).0 ≡ ok wd → is_abs wd ≡ true) where
  abs-result :
      (path p : Text) (w : World S)
      → (drive reply (abs path) w).0 ≡ ok p
      → IsAbsolute p × (is_abs path ≡ true → p ≡ clean path)
  unfolding abs drive
  abs-result path p w e = elim (Bool-cases (is_abs path)) [
    | inl a ↦ (subst IsAbsolute (ground arith) (clean-IsAbsolute path a), λ _. ground arith)
    | inr a ↦
        let (wd, at_wd, joined) =
          drive-bind_ok reply (perform getwd) (λ wd. return (join_path wd path)) w p
            (ground arith) in
        (
          subst IsAbsolute (ground arith) (join_path-IsAbsolute wd path (hw w.state wd at_wd)),
          λ b. absurd (ground arith),
        )
  ]

  open_root-root :
      (policy : Policy) (root : Text) (g : PathGuard) (w : World S)
      → (drive reply (open_root policy root) w).0 ≡ ok g
      → g.root ≡ root
  unfolding open_root drive guard_of
  open_root-root policy root g w e =
      let (local, e1) =
        drive-guard_ok reply (not policy.allow_unc_paths && is_unc_path root) _ _ w g e in
      let (u, seen, e2) = drive-bind_ok reply (validate_path_metadata root policy) _ w g e1 in
      let (effective, evaluated, e3) = drive-bind_ok reply (eval_effective_path root) _ _ g e2 in
      let (info, looked, e4) = drive-bind_ok reply (perform (stat effective)) _ _ g e3 in
      guard_of-root root effective policy info g _ e4
    where
      guard_of-root :
          (root effective : Text) (policy : Policy) (info : Info) (g : PathGuard) (w : World S)
          → (drive reply (guard_of root effective policy info) w).0 ≡ ok g
          → g.root ≡ root
      guard_of-root root effective policy info g w e = elim (Bool-cases info.is_dir) [
        | inl d ↦ ground arith
        | inr d ↦ absurd (ground arith)
      ]

  pub new_path_guard-Guards :
      (root : Text) (policy : Policy) (g : PathGuard) (w : World S)
      → (drive reply (new_path_guard_with_policy root policy) w).0 ≡ ok g
      → (bs : List Text) × Guards root g bs
  unfolding new_path_guard_with_policy is_abs
  new_path_guard-Guards root policy g w e =
      let (given, e1) = drive-guard_ok reply (is_blank root) _ _ w g e in
      let (local, e2) =
        drive-guard_ok reply (not policy.allow_unc_paths && is_unc_path root) _ _ w g e1 in
      let (absolute, made, e3) = drive-bind_ok reply (abs (clean root)) (open_root policy) w g e2 in
      let ((bs, proper, names), same) = abs-result (clean root) absolute w made in
      let opened = open_root-root policy absolute g _ e3 in
      (
        bs,
        record {
          rooted = record { proper = proper; root_eq = opened ∙ names };
          root_eq = λ a. opened ∙ same (clean-is_abs root a) ∙ clean_idempotent root;
        },
      )
