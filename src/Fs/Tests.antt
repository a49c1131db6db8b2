-- ===== src/Fs/Tests.antt =====
-- Examples for the file operations.
use flashgate_mcp.Base.{◌≡◌, ◌≤◌, ◌↔◌, true, false, [], ◌∷◌, length, codes, Text, arith, suc, ◌+◌}
use flashgate_mcp.Errors.{ok}
use flashgate_mcp.Os.{Call, run}
use flashgate_mcp.Os.Rules.{Safe, Anything}
use flashgate_mcp.Security.Looking.{Looking}
use flashgate_mcp.Security.Confinement.{Confined, Reading}
use flashgate_mcp.Security.Samples.{srv, guard, guard-IsRooted, system}
use flashgate_mcp.Fs.Types.{LocalFileSystem}
use flashgate_mcp.Fs.Reading.{list}
use flashgate_mcp.Fs.Reading.Bounds.{list-bounded}
use flashgate_mcp.Fs.Writing.{write, ensure_recursive_delete_within_limit}
use flashgate_mcp.Fs.Writing.Bounds.{
  Walked, entries_below, write-limit, Keeps, write-Keeps, recursive_delete-limit,
}
use flashgate_mcp.Filepath.{split_slash}
use flashgate_mcp.Security.Lexical.{below}
use flashgate_mcp.Fs.Moving.{move, effective_loop, effective_path_for_comparison}
use flashgate_mcp.Fs.Moving.Fuel.{effective_path_for_comparison-rounds}
use flashgate_mcp.Fs.Moving.Confinement.{move-Confined}

abbrev files : LocalFileSystem
files = record {
  guard = guard;
  limits = record {
    max_write_bytes = 2;
    max_list_entries = 3;
    max_copy_bytes = 4;
    max_delete_entries = 5;
  };
}

abbrev a : Text
a = codes "a"

abbrev b : Text
b = codes "b/c"

list-bounded_example : Safe (Reading srv) (λ es. length es ≤ 3) (list files b)
list-bounded_example = list-bounded files srv guard-IsRooted b

move-Confined_example : Safe (Confined srv) Anything (move files a b true)
move-Confined_example = move-Confined files srv guard-IsRooted a b true

write-limit_example : Safe (Looking srv) (λ _. ⊥) (write files a (1 ∷ 2 ∷ 3 ∷ []) true)
write-limit_example = write-limit files srv guard-IsRooted a (1 ∷ 2 ∷ 3 ∷ []) true (omega arith)

write-Keeps_example : Safe Keeps Anything (write files a (1 ∷ []) false)
write-Keeps_example = write-Keeps files srv guard-IsRooted a (1 ∷ [])

recursive_delete-limit_example :
    (run system (ensure_recursive_delete_within_limit files (codes "/srv/a")) ≡ ok tt) ↔ (
      Walked (system (Call.walk_dir (codes "/srv/a")))
      × (entries_below (codes "/srv/a") (system (Call.walk_dir (codes "/srv/a"))) ≤ 5))
recursive_delete-limit_example = recursive_delete-limit system files (codes "/srv/a")

effective_path_for_comparison-rounds_example :
    effective_path_for_comparison (below srv)
    ≡ effective_loop (5 + suc (length (split_slash (below srv)))) (below srv) []
effective_path_for_comparison-rounds_example =
    effective_path_for_comparison-rounds 5 srv guard-IsRooted.proper
