-- ===== src/Security/Startup.antt =====
-- NewPathGuardWithPolicy of internal/security: the guard that the server starts with.
use flashgate_mcp.Base.{
  ◌≡◌, ap, sym, ◌∙◌, true, not, ◌&&◌, List, Text, arith, subst, is_blank, inl, inr, Bool-cases,
}
use flashgate_mcp.Errors.{ok}
use flashgate_mcp.Os.{Call, Reply, Info, getwd, stat, eval_symlinks, run, perform, return}
use flashgate_mcp.Os.Rules.{run-bind_ok, run-guard_ok}
use flashgate_mcp.Filepath.{clean, is_abs, join_path}
use flashgate_mcp.Filepath.Absolute.{IsAbsolute, clean-IsAbsolute, join_path-IsAbsolute}
use flashgate_mcp.Security.{
  PathGuard, Policy, abs, is_unc_path, guard_of, open_root, new_path_guard_with_policy,
  validate_path_metadata, eval_effective_path,
}
use flashgate_mcp.Security.Lexical.{IsRooted}

-- A replay of the system in which the working directory is absolute.
module _ (h : (c : Call) → Reply c) (hw : (wd : Text) → h getwd ≡ ok wd → is_abs wd ≡ true) where
  abs-IsAbsolute : (path p : Text) → run h (abs path) ≡ ok p → IsAbsolute p
  unfolding abs run
  abs-IsAbsolute path p e = elim (Bool-cases (is_abs path)) [
    | inl a ↦ subst IsAbsolute (ground arith) (clean-IsAbsolute path a)
    | inr a ↦
        let (wd, at_wd, joined) =
          run-bind_ok h (perform getwd) (λ wd. return (join_path wd path)) p (ground arith) in
        subst IsAbsolute (ground arith) (join_path-IsAbsolute wd path (hw wd at_wd))
  ]

  guard_of-fields :
      (root effective : Text) (policy : Policy) (info : Info) (g : PathGuard)
      → run h (guard_of root effective policy info) ≡ ok g
      → (g ≡ record { root = root; effective_root = effective; policy = policy })
        × (info.is_dir ≡ true)
  unfolding guard_of run
  guard_of-fields root effective policy info g e = elim (Bool-cases info.is_dir) [
    | inl d ↦ (ground arith, d)
    | inr d ↦ absurd (ground arith)
  ]

  -- What a guard that was opened at an absolute root is.
  abbrev pub IsOpened : Text → Policy → PathGuard → Type 0
  IsOpened root policy g =
      (g.root ≡ root)
      × (g.policy ≡ policy)
      × (h (eval_symlinks root) ≡ ok g.effective_root)
      × ((info : Info) × (h (stat g.effective_root) ≡ ok info) × (info.is_dir ≡ true))

  open_root-IsOpened :
      (policy : Policy) (root : Text) (g : PathGuard)
      → run h (open_root policy root) ≡ ok g
      → IsOpened root policy g
  unfolding open_root run eval_effective_path
  open_root-IsOpened policy root g e =
      let (local, e1) = run-guard_ok h (not policy.allow_unc_paths && is_unc_path root) _ _ g e in
      let (u, seen, e2) = run-bind_ok h (validate_path_metadata root policy) _ g e1 in
      let (effective, evaluated, e3) = run-bind_ok h (eval_effective_path root) _ g e2 in
      let (info, looked, e4) = run-bind_ok h (perform (stat effective)) _ g e3 in
      let (made, directory) = guard_of-fields root effective policy info g e4 in
      let same : effective ≡ g.effective_root =
        sym (ap (λ (q : PathGuard). q.effective_root) made) in
      (
        ap (λ (q : PathGuard). q.root) made,
        ap (λ (q : PathGuard). q.policy) made,
        subst (λ t. h (eval_symlinks root) ≡ ok t) same evaluated,
        (info, subst (λ t. h (stat t) ≡ ok info) same looked, directory),
      )

  -- Where the working directory is absolute and the files do not change, a guard that is made has
  -- a clean absolute root, the policy it was made with, and as its effective root a directory to
  -- which the links of the root lead.
  pub new_path_guard-IsRooted :
      (root : Text) (policy : Policy) (g : PathGuard)
      → run h (new_path_guard_with_policy root policy) ≡ ok g
      → (bs : List Text) × IsRooted g bs × IsOpened g.root policy g
  unfolding new_path_guard_with_policy
  new_path_guard-IsRooted root policy g e =
      let (given, e1) = run-guard_ok h (is_blank root) _ _ g e in
      let (local, e2) = run-guard_ok h (not policy.allow_unc_paths && is_unc_path root) _ _ g e1 in
      let (absolute, made, e3) = run-bind_ok h (abs (clean root)) (open_root policy) g e2 in
      let (bs, proper, names) = abs-IsAbsolute (clean root) absolute made in
      let opened = open_root-IsOpened policy absolute g e3 in
      (
        bs,
        record { proper = proper; root_eq = opened.0 ∙ names },
        subst (λ t. IsOpened t policy g) (sym opened.0) opened,
      )
