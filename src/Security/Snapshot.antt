-- ===== src/Security/Snapshot.antt =====
-- ResolveExisting of internal/security in a run against files that do not change.
use flashgate_mcp.Base.{◌≡◌, true, Text, arith, subst}
use flashgate_mcp.Errors.{ok}
use flashgate_mcp.Os.{Call, Reply, eval_symlinks, run}
use flashgate_mcp.Os.Rules.{run-bind_ok}
use flashgate_mcp.Security.{
  PathGuard, is_inside_root, inside_or_fail, resolve_lexical, resolve_existing, eval_effective_path,
  validate_existing_path_policy,
}

module _ (h : (c : Call) → Reply c) where
  inside_or_fail-ok :
      (root effective path p : Text)
      → run h (inside_or_fail root effective path) ≡ ok p
      → (path ≡ p) × (is_inside_root root effective ≡ true)
  unfolding inside_or_fail run
  inside_or_fail-ok root effective path p e = ground arith

  -- Where the files do not change, the links of a path that resolving an existing path returns
  -- lead to an end inside the effective root.
  pub resolve_existing-effective :
      (g : PathGuard) (user_path p : Text)
      → run h (resolve_existing g user_path) ≡ ok p
      → (effective : Text) × (h (eval_symlinks p) ≡ ok effective)
        × (is_inside_root g.effective_root effective ≡ true)
  unfolding resolve_existing eval_effective_path run
  resolve_existing-effective g user_path p e =
      let (q, lexical, e1) = run-bind_ok h (resolve_lexical g user_path) _ p e in
      let (u, valid, e2) = run-bind_ok h (validate_existing_path_policy g q) _ p e1 in
      let (effective, evaluated, e3) = run-bind_ok h (eval_effective_path q) _ p e2 in
      let (same, inside) = inside_or_fail-ok g.effective_root effective q p e3 in
      (effective, subst (λ t. h (eval_symlinks t) ≡ ok effective) same evaluated, inside)
