-- ===== src/Fs/Reading/Confinement.antt =====
-- Read and Stat of internal/fs: the calls that they make.
use flashgate_mcp.Base.{ℕ, List, ◌==◌, ltb, Text}
use flashgate_mcp.Errors.{Answer, is_not_exist}
use flashgate_mcp.Os.{Os, Info, Call, ret, and_then}
use flashgate_mcp.Os.Rules.{
  Safe, Anything, Safe-return, Safe-fail, Safe-call, Safe-if, Safe-answer, Safe-bind, Safe-attempt,
}
use flashgate_mcp.Security.Lexical.{IsRooted}
use flashgate_mcp.Security.Looking.{IsBelow}
use flashgate_mcp.Security.Confinement.{Reading, resolve_existing-Reading}
use flashgate_mcp.Fs.Types.{LocalFileSystem}
use flashgate_mcp.Fs.Reading.{read_checked, read, or_not_found, stat}

module _ (f : LocalFileSystem) (bs : List Text) (hf : IsRooted f.guard bs) where
  read_checked-Reading :
      (safe : Text) (max_bytes : ℕ) (info : Info)
      → IsBelow bs safe
      → Safe (Reading bs) Anything (read_checked safe max_bytes info)
  unfolding read_checked
  read_checked-Reading safe max_bytes info h =
      Safe-if info.is_dir _ _ (λ _. Safe-fail _)
        λ _.
          Safe-if (max_bytes == 0) _ _ (λ _. Safe-fail _)
            λ _.
              Safe-if (ltb max_bytes info.size) _ _ (λ _. Safe-fail _)
                λ _. Safe-call (Call.read_file safe) ret h Safe-answer

  -- For a guard whose root is clean and absolute, every call that Read makes, but os.Stat,
  -- EvalSymlinks and those on open files, names only paths below the root, whatever the system
  -- replies.
  pub read-Reading :
      (path : Text) (max_bytes : ℕ) → Safe (Reading bs) Anything (read f path max_bytes)
  unfolding read
  read-Reading path max_bytes =
      Safe-bind _ _ (resolve_existing-Reading f.guard bs hf path) λ safe (ns, a, e).
        Safe-bind {R = Anything} _ _ (Safe-call (Call.stat safe) ret tt Safe-answer)
          λ info _. read_checked-Reading safe max_bytes info (ns, a.proper, e)

pub or_not_found-Safe :
    {A : Type 0} (P : Call → Type 0) (Q : A → Type 0) (m : Os (Answer A))
    → Safe P Q m
    → Safe P Q (and_then m (or_not_found {A = A}))
unfolding or_not_found
or_not_found-Safe P Q m h =
    Safe-attempt _ _ h (λ a q. Safe-return a q)
      (λ e. Safe-if (is_not_exist e) _ _ (λ _. Safe-fail _) (λ _. Safe-fail _))

module _ (f : LocalFileSystem) (bs : List Text) (hf : IsRooted f.guard bs) where
  -- For a guard whose root is clean and absolute, every call that Stat makes, but os.Stat,
  -- EvalSymlinks and those on open files, names only paths below the root, whatever the system
  -- replies.
  pub stat-Reading : (path : Text) → Safe (Reading bs) Anything (stat f path)
  unfolding stat
  stat-Reading path =
      Safe-bind _ _
        (or_not_found-Safe (Reading bs) _ _ (resolve_existing-Reading f.guard bs hf path))
        λ safe r.
          Safe-bind {R = Anything} _ _
            (or_not_found-Safe (Reading bs) Anything _
              (Safe-call (Call.stat safe) ret tt Safe-answer))
            λ info _. Safe-return _ tt
