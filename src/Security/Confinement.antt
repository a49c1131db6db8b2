-- ===== src/Security/Confinement.antt =====
-- The calls that a file operation may make on a resolved path, for internal/fs.
use flashgate_mcp.Base.{List, Text}
use flashgate_mcp.Os.{
  Call, getwd, lstat, stat, eval_symlinks, read_dir, read_file, open_read, walk_dir, remove,
  remove_all, entry_info, open_write, mkdir, mkdir_all, rename, write, copy, close,
}
use flashgate_mcp.Os.Rules.{Safe, Anything, Safe-weaken}
use flashgate_mcp.Security.{PathGuard, resolve_existing, resolve_for_create, allow_list_entry}
use flashgate_mcp.Security.Lexical.{IsRooted}
use flashgate_mcp.Security.Looking.{IsBelow, Looking, Resolves, resolve_existing-Looking}
use flashgate_mcp.Security.Parents.{resolve_for_create-Looking, allow_list_entry-Looking}

-- The calls by which a file is read, listed, created, changed or removed name paths below the
-- root only, and nothing asks for the working directory. What follows links to their end
-- (`os.Stat`, `filepath.EvalSymlinks`) may look elsewhere.
abbrev pub Confined : List Text → Call → Type 0
Confined bs getwd = ⊥
Confined bs (lstat p) = IsBelow bs p
Confined bs (stat p) = Unit
Confined bs (eval_symlinks p) = Unit
Confined bs (read_dir p) = IsBelow bs p
Confined bs (read_file p) = IsBelow bs p
Confined bs (open_read p) = IsBelow bs p
Confined bs (walk_dir p) = IsBelow bs p
Confined bs (remove p) = IsBelow bs p
Confined bs (remove_all p) = IsBelow bs p
Confined bs (entry_info p n) = IsBelow bs p
Confined bs (open_write p t m) = IsBelow bs p
Confined bs (mkdir p m) = IsBelow bs p
Confined bs (mkdir_all p m) = IsBelow bs p
Confined bs (rename p q) = IsBelow bs p × IsBelow bs q
Confined bs (write h b) = Unit
Confined bs (copy h i) = Unit
Confined bs (close h) = Unit

-- Of these, the calls that change nothing.
abbrev pub Reading : List Text → Call → Type 0
Reading bs (lstat p) = IsBelow bs p
Reading bs (stat p) = Unit
Reading bs (eval_symlinks p) = Unit
Reading bs (read_dir p) = IsBelow bs p
Reading bs (read_file p) = IsBelow bs p
Reading bs (entry_info p n) = IsBelow bs p
Reading bs _ = ⊥

pub Reading-Confined : (bs : List Text) (c : Call) → Reading bs c → Confined bs c
Reading-Confined bs (lstat p) h = h
Reading-Confined bs (stat p) h = h
Reading-Confined bs (eval_symlinks p) h = tt
Reading-Confined bs (read_dir p) h = h
Reading-Confined bs (read_file p) h = h
Reading-Confined bs (entry_info p n) h = h
Reading-Confined bs _ h = absurd h

Looking-Reading : (bs : List Text) (c : Call) → Looking bs c → Reading bs c
Looking-Reading bs (lstat p) h = h
Looking-Reading bs (eval_symlinks p) h = tt
Looking-Reading bs _ h = absurd h

Looking-Confined : (bs : List Text) (c : Call) → Looking bs c → Confined bs c
Looking-Confined bs (lstat p) h = h
Looking-Confined bs (eval_symlinks p) h = tt
Looking-Confined bs _ h = absurd h

module _ (g : PathGuard) (bs : List Text) (hg : IsRooted g bs) where
  pub resolve_existing-Confined :
      (u : Text) → Safe (Confined bs) (Resolves g bs u) (resolve_existing g u)
  resolve_existing-Confined u =
      Safe-weaken (Looking-Confined bs) _ (resolve_existing-Looking g bs hg u)

  pub resolve_for_create-Confined :
      (u : Text) → Safe (Confined bs) (Resolves g bs u) (resolve_for_create g u)
  resolve_for_create-Confined u =
      Safe-weaken (Looking-Confined bs) _ (resolve_for_create-Looking g bs hg u)

  pub resolve_existing-Reading :
      (u : Text) → Safe (Reading bs) (Resolves g bs u) (resolve_existing g u)
  resolve_existing-Reading u =
      Safe-weaken (Looking-Reading bs) _ (resolve_existing-Looking g bs hg u)

  pub allow_list_entry-Reading :
      (parent name : Text)
      → IsBelow bs parent
      → Safe (Reading bs) Anything (allow_list_entry g parent name)
  allow_list_entry-Reading parent name h =
      Safe-weaken (Looking-Reading bs) _ (allow_list_entry-Looking g bs hg parent name h)
