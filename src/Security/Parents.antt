-- ===== src/Security/Parents.antt =====
-- ResolveForCreate and AllowListEntry of internal/security: the calls that they make.
use flashgate_mcp.Base.{
  ℕ, zero, suc, ◌≡◌, refl, ap, sym, ◌∙◌, subst, Bool, true, false, not, ◌&&◌, List, [], ◌∷◌, ◌++◌,
  arith, All, Text, text_eq, length, All-suffix, drop_last,
}
use flashgate_mcp.Errors.{Answer, ok, err, is_not_exist}
use flashgate_mcp.Os.{Os, and_then}
use flashgate_mcp.Os.Rules.{
  Safe, Anything, Safe-return, Safe-fail, Safe-if, Safe-bind, Safe-attempt,
}
use flashgate_mcp.Filepath.{
  Cleaned, IsName, read_path, write_path, join_path, join_slash, split_slash, dir, clean,
}
use flashgate_mcp.Filepath.Cleaning.{at, IsClean, read_path-IsClean, read_path-write_path}
use flashgate_mcp.Filepath.Relative.{rel-mixed}
use flashgate_mcp.Security.{
  PathGuard, is_inside_root, validate_existing_path_policy, is_hidden_name, parent_on_missing,
  existing_parent_loop, resolve_existing_parent, create_checked, resolve_for_create,
  list_entry_checked, allow_list_entry, hides_entry, stays_inside,
}
use flashgate_mcp.Security.Lexical.{below, IsRooted, read_path-below, below-ne-nil}
use flashgate_mcp.Security.Inside.{is_inside_root_iff}
use flashgate_mcp.Security.Looking.{
  IsBelow, Looking, Resolves, validate_existing-Looking, resolve_lexical-Looking,
  inside_or_fail-Looking, eval-Looking, at_zero, validate_path_metadata-Looking,
}

module _ (g : PathGuard) (bs : List Text) (hg : IsRooted g bs) where
  parent_on_missing-Looking :
      {A : Type 0} (next : Os (Answer Text)) (found : A → Os (Answer Text)) (m : Os (Answer A))
      → Safe (Looking bs) Anything m
      → Safe (Looking bs) Anything next
      → ((a : A) → Safe (Looking bs) Anything (found a))
      → Safe (Looking bs) Anything (and_then m (parent_on_missing next found))
  unfolding parent_on_missing
  parent_on_missing-Looking next found m hm hn hf =
      Safe-attempt m _ hm (λ a _. hf a)
        (λ e. Safe-if (is_not_exist e) _ _ (λ _. hn) (λ _. Safe-fail e))

  -- A path that lies inside the root when it is cleaned is one of names below it.
  relative-outside :
      (c : Cleaned) → IsClean c → c.rooted ≡ false → ¬ (is_inside_root g.root (write_path c) ≡ true)
  unfolding is_inside_root stays_inside
  relative-outside c h r inside =
      let none_at =
        rel-mixed g.root (write_path c)
          (ap (λ (d : Cleaned). d.rooted) (ap read_path hg.root_eq ∙ read_path-below bs hg.proper))
          (ap (λ (d : Cleaned). d.rooted) (read_path-write_path c h) ∙ r) in
      cc (ap stays_inside none_at)

  inside_names :
      (r : Bool) (u : ℕ) (ns : List Text)
      → All IsName ns
      → (r ≡ true → u ≡ 0)
      → is_inside_root g.root (write_path (at r u ns)) ≡ true
      → IsBelow bs (write_path (at r u ns))
  inside_names true u ns h z inside =
      let root = at_zero u ns (z refl) in
      let (rest, e) =
        (is_inside_root_iff (below bs) (below ns) bs ns (read_path-below bs hg.proper)
            (read_path-below ns h) hg.proper h).0
          (subst (λ t. is_inside_root t (below ns) ≡ true) hg.root_eq
            (subst (λ t. is_inside_root g.root t ≡ true) root inside)) in
      (rest, All-suffix IsName bs rest (subst (All IsName) e h), root ∙ ap below e)
  inside_names false u ns h z inside =
      absurd (relative-outside (at false u ns) (record { all_names = h; at_root = z }) refl inside)

  inside-IsBelow :
      (c : Cleaned)
      → IsClean c
      → is_inside_root g.root (write_path c) ≡ true
      → IsBelow bs (write_path c)
  inside-IsBelow c h inside = inside_names c.rooted c.ups c.names h.all_names h.at_root inside

  pub clean-IsBelow : (s : Text) → is_inside_root g.root (clean s) ≡ true → IsBelow bs (clean s)
  unfolding clean
  clean-IsBelow s inside = inside-IsBelow (read_path s) (read_path-IsClean s) inside

  dir-IsBelow : (s : Text) → is_inside_root g.root (dir s) ≡ true → IsBelow bs (dir s)
  unfolding dir
  dir-IsBelow s inside = clean-IsBelow (join_slash (drop_last (split_slash s) ++ [] ∷ [])) inside

  validate_below-Looking :
      (p : Text) → IsBelow bs p → Safe (Looking bs) Anything (validate_existing_path_policy g p)
  validate_below-Looking p (ns, h, e) = rw e (validate_existing-Looking g bs hg ns h)

  existing_parent_loop-Looking :
      (fuel : ℕ) (current : Text) → Safe (Looking bs) Anything (existing_parent_loop g fuel current)
  unfolding existing_parent_loop
  existing_parent_loop-Looking zero current = Safe-fail _
  existing_parent_loop-Looking (suc fuel) current =
      let ih = existing_parent_loop-Looking fuel (dir current) in
      Safe-if (text_eq (dir current) current) _ _ (λ _. Safe-fail _)
        λ _.
          Safe-if (not (is_inside_root g.root (dir current))) _ _ (λ _. Safe-fail _)
            λ inside.
              parent_on_missing-Looking _ _ _
                (validate_below-Looking (dir current) (dir-IsBelow current (ground arith))) ih
                λ _.
                  parent_on_missing-Looking _ _ _ (eval-Looking g bs hg (dir current)) ih
                    λ effective. Safe-return effective tt

  create_checked-Looking :
      (p : Text) (Q : Text → Type 0)
      → Q p
      → IsBelow bs p
      → (r : Answer Text) → Safe (Looking bs) Q (create_checked g p r)
  unfolding create_checked resolve_existing_parent
  create_checked-Looking p Q q h (ok effective) =
      Safe-bind {R = Anything} _ _ (validate_below-Looking p h)
        λ _ _. inside_or_fail-Looking g bs hg g.effective_root effective p Q q
  create_checked-Looking p Q q h (err e) =
      Safe-if (is_not_exist e) _ _
        (λ _.
          Safe-bind {R = Anything} _ _
            (existing_parent_loop-Looking (length (split_slash p)) (clean p))
            λ effective _. inside_or_fail-Looking g bs hg g.effective_root effective p Q q)
        (λ _. Safe-fail e)

  -- For a guard whose root is clean and absolute, resolving a client path that may be created
  -- makes no calls but Lstat on paths below the root, those of the parents it tries included, and
  -- EvalSymlinks, whatever the system replies, and a path that is returned is an accepted one,
  -- joined to the root.
  pub resolve_for_create-Looking :
      (u : Text) → Safe (Looking bs) (Resolves g bs u) (resolve_for_create g u)
  unfolding resolve_for_create
  resolve_for_create-Looking u = Safe-bind _ _ (resolve_lexical-Looking g bs hg u) λ p (ns, a, e).
      Safe-attempt {R = Anything} _ _ (eval-Looking g bs hg p)
        (λ effective _.
          create_checked-Looking p (Resolves g bs u) (ns, a, e) (ns, a.proper, e) (ok effective))
        (λ f. create_checked-Looking p (Resolves g bs u) (ns, a, e) (ns, a.proper, e) (err f))

  join-IsBelow_inside :
      (parent name : Text)
      → IsBelow bs parent
      → is_inside_root g.root (join_path parent name) ≡ true
      → IsBelow bs (join_path parent name)
  unfolding join_path
  join-IsBelow_inside [] name (ns, h, e) inside = absurd (below-ne-nil (bs ++ ns) (sym e))
  join-IsBelow_inside (c ∷ s) [] h inside = clean-IsBelow (c ∷ s) inside
  join-IsBelow_inside (c ∷ s) (d ∷ t) h inside = clean-IsBelow ((c ∷ s) ++ b'/' ∷ d ∷ t) inside

  list_entry_checked-Looking :
      (p : Text) (r : Answer Unit) → Safe (Looking bs) Anything (list_entry_checked g p r)
  unfolding list_entry_checked
  list_entry_checked-Looking p (ok _) =
      Safe-bind {R = Anything} _ _ (eval-Looking g bs hg p) λ effective _. Safe-return _ tt
  list_entry_checked-Looking p (err e) =
      Safe-if (hides_entry e) _ _ (λ _. Safe-return _ tt) (λ _. Safe-fail e)

  -- For a guard whose root is clean and absolute, looking at an entry of a directory below the
  -- root makes no calls but Lstat below the root and EvalSymlinks, whatever the name of the entry
  -- is and whatever the system replies.
  pub allow_list_entry-Looking :
      (parent name : Text)
      → IsBelow bs parent
      → Safe (Looking bs) Anything (allow_list_entry g parent name)
  unfolding allow_list_entry
  allow_list_entry-Looking parent name h =
      Safe-if (not g.policy.allow_hidden_files && is_hidden_name name) _ _ (λ _. Safe-return _ tt)
        λ _.
          Safe-if (not (is_inside_root g.root (join_path parent name))) _ _ (λ _. Safe-fail _)
            λ inside.
              Safe-attempt {R = Anything} _ _
                (validate_path_metadata-Looking bs (join_path parent name) g.policy
                  (join-IsBelow_inside parent name h (ground arith)))
                (λ a _. list_entry_checked-Looking (join_path parent name) (ok a))
                (λ e. list_entry_checked-Looking (join_path parent name) (err e))
