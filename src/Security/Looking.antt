-- ===== src/Security/Looking.antt =====
-- ResolveExisting of internal/security: the calls that it makes and the path that it returns.
use flashgate_mcp.Base.{
  ℕ, ◌≡◌, refl, ap, sym, ◌∙◌, true, not, ◌||◌, ◌&&◌, List, [], ◌∷◌, ◌++◌, some, All, All-append,
  Text, text_eq, inl, inr, append_assoc, append-nil,
}
use flashgate_mcp.Os.{Call, lstat, eval_symlinks, ret}
use flashgate_mcp.Os.Rules.{
  Safe, Anything, Safe-return, Safe-fail, Safe-call, Safe-if, Safe-answer, Safe-bind,
}
use flashgate_mcp.Filepath.{dot, IsName, rel, write_relative, write_path, join_path, join_slash}
use flashgate_mcp.Filepath.Splitting.{split-join}
use flashgate_mcp.Filepath.Cleaning.{at, NoSlash-names}
use flashgate_mcp.Filepath.Relative.{rel-below}
use flashgate_mcp.Security.{
  Policy, PathGuard, is_inside_root, validate_components, validate_path_metadata, validate_relative,
  validate_existing_path_policy, inside_or_fail, resolve_lexical, resolve_existing,
  eval_effective_path, is_hidden_name,
}
use flashgate_mcp.Security.Lexical.{
  below, IsRooted, Accepts, resolve_lexical-Accepts, resolve_lexical-cases, read_path-below,
  join_path-below, write_relative-ne-dot,
}

-- A path to something below the root whose names are `bs`.
abbrev pub IsBelow : List Text → Text → Type 0
IsBelow bs p = (ns : List Text) × All IsName ns × (p ≡ below (bs ++ ns))

-- What resolving may ask of the system: about entries below the root, where links lead
-- (`filepath.EvalSymlinks`), and nothing else; in particular, it changes nothing.
abbrev pub Looking : List Text → Call → Type 0
Looking bs (lstat p) = IsBelow bs p
Looking bs (eval_symlinks p) = Unit
Looking bs _ = ⊥

-- What a client path is resolved to.
abbrev pub Resolves : PathGuard → List Text → Text → Text → Type 0
Resolves g bs u p = (ns : List Text) × Accepts g u ns × (p ≡ below (bs ++ ns))

pub validate_path_metadata-Looking :
    (bs : List Text) (p : Text) (policy : Policy)
    → IsBelow bs p
    → Safe (Looking bs) Anything (validate_path_metadata p policy)
unfolding validate_path_metadata
validate_path_metadata-Looking bs p policy h =
    Safe-bind {R = Anything} _ _ (Safe-call (lstat p) ret h Safe-answer) λ info _.
      Safe-if (not policy.follow_symlinks && info.symlink) _ _ (λ _. Safe-fail _)
        (λ _. Safe-return tt tt)

join-IsBelow :
    (bs ms : List Text) (p : Text)
    → All IsName bs
    → All IsName ms
    → IsName p
    → join_path (below (bs ++ ms)) p ≡ below (bs ++ (ms ++ p ∷ []))
unfolding write_relative join_slash
join-IsBelow bs ms p hb hm hp =
    join_path-below (bs ++ ms) (p ∷ []) (All-append IsName bs ms hb hm) (hp, tt)
    ∙ ap below (append_assoc bs ms (p ∷ []))

pub at_zero : (u : ℕ) (ns : List Text) → u ≡ 0 → write_path (at true u ns) ≡ below ns
at_zero u ns z = ap (λ k. write_path (at true k ns)) z

module _ (g : PathGuard) (bs : List Text) (hg : IsRooted g bs) where
  validate_components-Looking :
      (policy : Policy) (current : Text) (ms ps : List Text)
      → current ≡ below (bs ++ ms)
      → All IsName ms
      → All IsName ps
      → Safe (Looking bs) Anything (validate_components policy current ps)
  unfolding validate_components
  validate_components-Looking policy current ms [] e hm hp = Safe-return tt tt
  validate_components-Looking policy current ms (p ∷ ps) e hm hp =
      let next : join_path current p ≡ below (bs ++ (ms ++ p ∷ [])) =
        rw e (join-IsBelow bs ms p hg.proper hm hp.0) in
      let proper : All IsName (ms ++ p ∷ []) = All-append IsName ms (p ∷ []) hm (hp.0, tt) in
      Safe-if (text_eq p [] || text_eq p dot) _ _
        (λ _. validate_components-Looking policy current ms ps e hm hp.1)
        λ _.
          Safe-if (not policy.allow_hidden_files && is_hidden_name p) _ _ (λ _. Safe-fail _)
            λ _.
              Safe-bind {R = Anything} _ _
                (validate_path_metadata-Looking bs (join_path current p) policy
                  (ms ++ p ∷ [], proper, next))
                λ _ _.
                  validate_components-Looking policy (join_path current p) (ms ++ p ∷ []) ps next
                    proper hp.1

  pub rel-root :
      (ns : List Text) → All IsName ns → rel g.root (below (bs ++ ns)) ≡ some (write_relative ns)
  rel-root ns h = rw hg.root_eq (
      rel-below (below bs) (below (bs ++ ns)) bs (bs ++ ns) (read_path-below bs hg.proper)
        (read_path-below (bs ++ ns) (All-append IsName bs ns hg.proper h)) ns refl)

  validate_relative-Looking :
      (ns : List Text)
      → All IsName ns
      → Safe (Looking bs) Anything (validate_relative g (some (write_relative ns)))
  unfolding validate_relative
  validate_relative-Looking [] h =
      unfold write_relative text_eq in
      validate_path_metadata-Looking bs g.root g.policy
        ([], tt, hg.root_eq ∙ ap below (sym (append-nil bs)))
  validate_relative-Looking (p ∷ ns) h = rw (write_relative-ne-dot p ns h) (
      unfold write_relative in
      rw (split-join p ns (NoSlash-names (p ∷ ns) h)) (
        validate_components-Looking g.policy g.root [] (p ∷ ns)
          (hg.root_eq ∙ ap below (sym (append-nil bs))) tt h))

  pub validate_existing-Looking :
      (ns : List Text)
      → All IsName ns
      → Safe (Looking bs) Anything (validate_existing_path_policy g (below (bs ++ ns)))
  unfolding validate_existing_path_policy
  validate_existing-Looking ns h = rw (rel-root ns h) (validate_relative-Looking ns h)

  pub resolve_lexical-Looking :
      (u : Text) → Safe (Looking bs) (Resolves g bs u) (resolve_lexical g u)
  resolve_lexical-Looking u = elim (resolve_lexical-cases g bs hg u) [
    | inl (ns, a) ↦ rw (resolve_lexical-Accepts g bs hg u ns a) (Safe-return _ (ns, a, refl))
    | inr (e, refused) ↦ rw refused (Safe-fail _)
  ]

  pub inside_or_fail-Looking :
      (root effective path : Text) (Q : Text → Type 0)
      → Q path
      → Safe (Looking bs) Q (inside_or_fail root effective path)
  unfolding inside_or_fail
  inside_or_fail-Looking root effective path Q q =
      Safe-if (is_inside_root root effective) _ _ (λ _. Safe-return path q) (λ _. Safe-fail _)

  pub eval-Looking : (p : Text) → Safe (Looking bs) Anything (eval_effective_path p)
  unfolding eval_effective_path
  eval-Looking p = Safe-call (eval_symlinks p) ret tt Safe-answer

  -- For a guard whose root is clean and absolute, resolving an existing client path makes no calls
  -- but Lstat on paths below the root and EvalSymlinks, whatever the system replies, and a path
  -- that is returned is an accepted one, joined to the root.
  pub resolve_existing-Looking :
      (u : Text) → Safe (Looking bs) (Resolves g bs u) (resolve_existing g u)
  unfolding resolve_existing
  resolve_existing-Looking u = Safe-bind _ _ (resolve_lexical-Looking u) λ p (ns, a, e).
      Safe-bind {R = Anything} _ _ (rw e (validate_existing-Looking ns a.proper)) λ _ _.
        Safe-bind {R = Anything} _ _ (eval-Looking p) λ effective _.
          inside_or_fail-Looking g.effective_root effective p (Resolves g bs u) (ns, a, e)
