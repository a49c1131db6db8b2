-- ===== src/Security/Tests.antt =====
-- Examples for the guard.
use flashgate_mcp.Base.{
  ◌≡◌, ◌⊎◌, ◌↔◌, refl, true, List, [], ◌∷◌, ◌++◌, codes, is_blank, text_eq, has_prefix, Text, arith,
  length, ◌+◌,
}
use flashgate_mcp.Errors.{ok}
use flashgate_mcp.Os.{eval_symlinks, getwd, run, return, and_then}
use flashgate_mcp.Os.Rules.{Safe}
use flashgate_mcp.Filepath.{
  IsName, read_path, write_relative, write_path, clean, is_abs, leads_up, join_path, rel,
  split_slash,
}
use flashgate_mcp.Security.{
  abs, validate_path_metadata, eval_effective_path, is_traversal_path, has_hidden_path_component,
  validate_existing_path_policy, normalize_user_path, is_unc_path, is_hidden_name, default_policy,
  is_inside_root, resolve_lexical, resolve_existing, resolve_for_create, new_path_guard_with_policy,
  resolve_existing_parent, existing_parent_loop,
}
use flashgate_mcp.Security.Inside.{is_inside_root_iff}
use flashgate_mcp.Security.Lexical.{
  IsRooted, Accepts, Refused, resolve_lexical-Accepts, resolve_lexical-cases, below,
}
use flashgate_mcp.Security.Looking.{Looking, Resolves, resolve_existing-Looking}
use flashgate_mcp.Security.Parents.{resolve_for_create-Looking}
use flashgate_mcp.Security.Fuel.{resolve_existing_parent-rounds}
use flashgate_mcp.Security.Startup.{IsOpened, new_path_guard-IsRooted}
use flashgate_mcp.Security.Snapshot.{resolve_existing-effective}
use flashgate_mcp.Security.Samples.{srv, guard, guard-IsRooted, system}

a-IsName : IsName (codes "a")
a-IsName = record {
  non_empty = ground arith;
  not_dot = ground arith;
  not_up = ground arith;
  no_slash = (ground arith, tt);
}

a-Accepts : Accepts guard (codes "./a/") (codes "a" ∷ [])
unfolding write_relative normalize_user_path is_blank clean is_unc_path is_hidden_name
a-Accepts = record {
  normal = refl;
  proper = (a-IsName, tt);
  local = λ _. refl;
  visible = λ _. (refl, tt);
}

resolve_existing-Looking_example :
    Safe (Looking srv) (Resolves guard srv (codes "a")) (resolve_existing guard (codes "a"))
resolve_existing-Looking_example = resolve_existing-Looking guard srv guard-IsRooted (codes "a")

resolve_for_create-Looking_example :
    Safe (Looking srv) (Resolves guard srv (codes "b/a")) (resolve_for_create guard (codes "b/a"))
resolve_for_create-Looking_example =
    resolve_for_create-Looking guard srv guard-IsRooted (codes "b/a")

resolve_lexical-Accepts_example : resolve_lexical guard (codes "./a/") ≡ return (codes "/srv/a")
unfolding write_path
resolve_lexical-Accepts_example =
    resolve_lexical-Accepts guard srv guard-IsRooted (codes "./a/") (codes "a" ∷ []) a-Accepts

resolve_lexical-cases_example :
    ((ns : List Text) × Accepts guard (codes "../a") ns)
    ⊎ Refused guard srv guard-IsRooted (codes "../a")
resolve_lexical-cases_example = resolve_lexical-cases guard srv guard-IsRooted (codes "../a")

is_inside_root_iff_example :
    (is_inside_root (codes "/srv") (codes "/srv/a") ≡ true)
    ↔ ((rest : List Text) × (codes "srv" ∷ codes "a" ∷ [] ≡ srv ++ rest))
unfolding read_path
is_inside_root_iff_example =
    is_inside_root_iff (codes "/srv") (codes "/srv/a") srv (codes "srv" ∷ codes "a" ∷ []) refl refl
      guard-IsRooted.proper (guard-IsRooted.proper.0, (a-IsName, tt))

system-getwd : (wd : Text) → system getwd ≡ ok wd → is_abs wd ≡ true
unfolding is_abs
system-getwd wd e = ground arith

new_path_guard-IsRooted_example :
    (bs : List Text) × IsRooted guard bs
    × IsOpened system system-getwd guard.root default_policy guard
unfolding run new_path_guard_with_policy is_blank is_unc_path and_then abs is_abs clean
    validate_path_metadata eval_effective_path
new_path_guard-IsRooted_example =
    new_path_guard-IsRooted system system-getwd (codes "/srv") default_policy guard refl

resolve_existing-effective_example :
    (effective : Text) × (system (eval_symlinks (codes "/srv/a")) ≡ ok effective)
    × (is_inside_root (codes "/srv") effective ≡ true)
unfolding run resolve_existing resolve_lexical and_then normalize_user_path is_blank clean
    is_unc_path is_abs is_traversal_path leads_up has_hidden_path_component is_hidden_name abs
    join_path is_inside_root rel validate_existing_path_policy split_slash write_path
    validate_path_metadata eval_effective_path read_path text_eq has_prefix
resolve_existing-effective_example =
    resolve_existing-effective system guard (codes "a") (codes "/srv/a") refl

resolve_existing_parent-rounds_example :
    resolve_existing_parent guard (below srv)
    ≡ existing_parent_loop guard (5 + length (split_slash (below srv))) (below srv)
resolve_existing_parent-rounds_example =
    resolve_existing_parent-rounds guard 5 srv guard-IsRooted.proper
