-- ===== src/Fs/Reading/Bounds.antt =====
-- List of internal/fs: its calls and its limit.
use flashgate_mcp.Base.{◌≤◌, not, List, [], ◌∷◌, length, Text, leb, arith, length-append}
use flashgate_mcp.Os.{DirEntry, Call, ret}
use flashgate_mcp.Os.Rules.{
  Safe, Anything, Safe-return, Safe-fail, Safe-call, Safe-if, Safe-answer, Safe-bind,
}
use flashgate_mcp.Security.Lexical.{IsRooted}
use flashgate_mcp.Security.Looking.{IsBelow}
use flashgate_mcp.Security.Confinement.{Reading, resolve_existing-Reading, allow_list_entry-Reading}
use flashgate_mcp.Fs.Types.{Entry, LocalFileSystem}
use flashgate_mcp.Fs.Reading.{list_entries, list, entry_of}

module _ (f : LocalFileSystem) (bs : List Text) (hf : IsRooted f.guard bs) where
  abbrev Short : List Entry → Type 0
  Short es = length es ≤ f.limits.max_list_entries

  list_entries-bounded :
      (path : Text) (ds : List DirEntry) (result : List Entry)
      → IsBelow bs path
      → Short result
      → Safe (Reading bs) Short (list_entries f path ds result)
  unfolding list_entries
  list_entries-bounded path [] result h s = Safe-return _ s
  list_entries-bounded path (d ∷ ds) result h s =
      Safe-bind _ _ (allow_list_entry-Reading f.guard bs hf path d.name h) λ allowed _.
        Safe-if (not allowed) _ _ (λ _. list_entries-bounded path ds result h s)
          λ _.
            Safe-if (leb f.limits.max_list_entries (length result)) _ _ (λ _. Safe-fail _)
              λ room.
                Safe-bind {R = Anything} _ _
                  (Safe-call (Call.entry_info path d.name) ret h Safe-answer)
                  λ info _.
                    list_entries-bounded path ds _ h
                      (ground (arith, length-append result (entry_of d info ∷ [])))

  -- For a guard whose root is clean and absolute, every call that List makes changes nothing and,
  -- but for os.Stat and EvalSymlinks, names only paths below the root, whatever the system
  -- replies, and a list that is returned has at most as many entries as the limit.
  pub list-bounded :
      (path : Text) → Safe (Reading bs) (λ es. length es ≤ f.limits.max_list_entries) (list f path)
  unfolding list
  list-bounded path = Safe-bind _ _ (resolve_existing-Reading f.guard bs hf path) λ safe (ns, a, e).
      Safe-bind {R = Anything} _ _
        (Safe-call (Call.read_dir safe) ret (ns, a.proper, e) Safe-answer)
        λ ds _. list_entries-bounded safe ds [] (ns, a.proper, e) (omega arith)
