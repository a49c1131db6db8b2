-- ===== src/Fs/Writing/Confinement.antt =====
-- Write, Mkdir, Delete and Copy of internal/fs: the calls that they make.
use flashgate_mcp.Base.{
  ℕ, ◌≡◌, sym, ◌∙◌, ap, true, false, not, List, [], ◌∷◌, ◌++◌, ◌==◌, ltb, length, Text, Bool,
  text_eq_iff, All-append, All-drop_last, append-nil, drop_last, drop_last-append,
}
use flashgate_mcp.Errors.{Answer, ok, err, is_not_exist, is_exist}
use flashgate_mcp.Os.{Os, Info, DirEntry, Call, ret, and_then}
use flashgate_mcp.Filepath.{IsName, dir, clean}
use flashgate_mcp.Filepath.Joining.{dir-names}
use flashgate_mcp.Os.Rules.{
  Safe, Anything, Safe-return, Safe-fail, Safe-call, Safe-if, Safe-answer, Safe-bind, Safe-attempt,
  Safe-deferred,
}
use flashgate_mcp.Security.Lexical.{below, IsRooted}
use flashgate_mcp.Security.Looking.{IsBelow}
use flashgate_mcp.Security.Confinement.{
  Confined, resolve_existing-Confined, resolve_for_create-Confined,
}
use flashgate_mcp.Fs.Types.{LocalFileSystem}
use flashgate_mcp.Fs.Writing.{
  paths_equivalent, or_file_exists, write_content, write_opened, write_checked, write,
  mkdir_checked, mkdir, ensure_recursive_delete_within_limit, delete_empty, delete_directory,
  delete, target_policy_checked, ensure_target_policy, copy_opened, copy_checked, copy,
}

or_file_exists-Safe :
    {A : Type 0} (P : Call → Type 0) (m : Os (Answer A))
    → Safe P Anything m
    → Safe P Anything (and_then m (or_file_exists {A = A}))
unfolding or_file_exists
or_file_exists-Safe P m h =
    Safe-attempt _ _ h (λ a q. Safe-return a tt)
      (λ e. Safe-if (is_exist e) _ _ (λ _. Safe-fail _) (λ _. Safe-fail _))

differs : {b : Bool} → b ≡ false → ¬ (b ≡ true)
differs e d = cc

module _ (f : LocalFileSystem) (bs : List Text) (hf : IsRooted f.guard bs) where
  write_content-Confined :
      (file : ℕ) (content : List ℕ) → Safe (Confined bs) Anything (write_content file content)
  unfolding write_content
  write_content-Confined file content =
      Safe-bind {R = Anything} _ _ (Safe-call (Call.write file content) ret tt Safe-answer)
        λ written _.
          Safe-if (written == length content) _ _ (λ _. Safe-return _ tt) (λ _. Safe-fail _)

  write_opened-Confined :
      (safe : Text) (content : List ℕ) (overwrite : Bool)
      → IsBelow bs safe
      → Safe (Confined bs) Anything (write_opened safe content overwrite)
  unfolding write_opened
  write_opened-Confined safe content overwrite h =
      Safe-bind {R = Anything} _ _
        (or_file_exists-Safe (Confined bs) _
          (Safe-call (Call.open_write safe overwrite 0o600) ret h Safe-answer))
        λ file _. Safe-deferred (Call.close file) _ tt (write_content-Confined file content)

  write_checked-Confined :
      (safe : Text) (content : List ℕ) (overwrite : Bool) (r : Answer Info)
      → IsBelow bs safe
      → Safe (Confined bs) Anything (write_checked safe content overwrite r)
  unfolding write_checked
  write_checked-Confined safe content overwrite (ok info) h =
      Safe-if info.is_dir _ _ (λ _. Safe-fail _)
        λ _.
          Safe-if (not overwrite) _ _ (λ _. Safe-fail _)
            λ _. write_opened-Confined safe content overwrite h
  write_checked-Confined safe content overwrite (err e) h =
      Safe-if (not (is_not_exist e)) _ _ (λ _. Safe-fail _)
        λ _. write_opened-Confined safe content overwrite h

  -- For a guard whose root is clean and absolute, every call that Write makes, but os.Stat,
  -- EvalSymlinks and those on open files, names only paths below the root, whatever the system
  -- replies.
  pub write-Confined :
      (path : Text) (content : List ℕ) (overwrite : Bool)
      → Safe (Confined bs) Anything (write f path content overwrite)
  unfolding write
  write-Confined path content overwrite =
      Safe-bind _ _ (resolve_for_create-Confined f.guard bs hf path) λ safe (ns, a, e).
        Safe-if (ltb f.limits.max_write_bytes (length content)) _ _ (λ _. Safe-fail _)
          λ _.
            Safe-attempt {R = Anything} _ _ (Safe-call (Call.stat safe) ret tt Safe-answer)
              (λ info _. write_checked-Confined safe content overwrite (ok info) (ns, a.proper, e))
              (λ e'. write_checked-Confined safe content overwrite (err e') (ns, a.proper, e))

  mkdir_checked-Confined :
      (safe : Text) (r : Answer Unit) → Safe (Confined bs) Anything (mkdir_checked safe r)
  unfolding mkdir_checked
  mkdir_checked-Confined safe (ok _) = Safe-return _ tt
  mkdir_checked-Confined safe (err e) =
      Safe-if (not (is_exist e)) _ _ (λ _. Safe-fail _)
        λ _.
          Safe-bind {R = Anything} _ _ (Safe-call (Call.stat safe) ret tt Safe-answer)
            λ info _. Safe-if (not info.is_dir) _ _ (λ _. Safe-fail _) (λ _. Safe-return _ tt)

  same_root : (safe : Text) → safe ≡ below (bs ++ []) → paths_equivalent safe f.guard.root ≡ true
  unfolding paths_equivalent
  same_root safe e = (text_eq_iff _ _).1 (ap clean (e ∙ ap below (append-nil bs) ∙ sym hf.root_eq))

  -- The directory of a path below the root, other than the root itself, lies below the root.
  dir-IsBelow :
      (safe : Text)
      → IsBelow bs safe
      → paths_equivalent safe f.guard.root ≡ false
      → IsBelow bs (dir safe)
  dir-IsBelow safe ([], h, e) differ = absurd (differs differ (same_root safe e))
  dir-IsBelow safe (n ∷ ns, h, e) differ = (
    drop_last (n ∷ ns),
    All-drop_last IsName (n ∷ ns) h,
    ap dir e
        ∙ dir-names (bs ++ n ∷ ns) (All-append IsName bs (n ∷ ns) hf.proper h)
        ∙ ap below (drop_last-append bs n ns),
  )

  -- For a guard whose root is clean and absolute, every call that Mkdir makes, but os.Stat,
  -- EvalSymlinks and those on open files, names only paths below the root, whatever the system
  -- replies; the parent that it makes too lies below the root.
  pub mkdir-Confined : (path : Text) → Safe (Confined bs) Anything (mkdir f path)
  unfolding mkdir
  mkdir-Confined path =
      Safe-bind _ _ (resolve_for_create-Confined f.guard bs hf path) λ safe (ns, a, e).
        Safe-if (paths_equivalent safe f.guard.root) _ _ (λ _. Safe-return _ tt)
          λ differ.
            Safe-bind {R = Anything} _ _
              (Safe-call (Call.mkdir_all (dir safe) 0o700) ret
                (dir-IsBelow safe (ns, a.proper, e) differ) Safe-answer)
              λ _ _.
                Safe-attempt {R = Anything} _ _
                  (Safe-call (Call.mkdir safe 0o700) ret (ns, a.proper, e) Safe-answer)
                  (λ r _. mkdir_checked-Confined safe (ok r))
                  (λ e'. mkdir_checked-Confined safe (err e'))

  within_limit-Confined :
      (safe : Text)
      → IsBelow bs safe
      → Safe (Confined bs) Anything (ensure_recursive_delete_within_limit f safe)
  unfolding ensure_recursive_delete_within_limit and_then
  within_limit-Confined safe h = Safe-call (Call.walk_dir safe) _ h (λ visits. Safe-answer _)

  delete_empty-Confined :
      (safe : Text) (ds : List DirEntry)
      → IsBelow bs safe
      → Safe (Confined bs) Anything (delete_empty safe ds)
  unfolding delete_empty
  delete_empty-Confined safe [] h = Safe-call (Call.remove safe) ret h Safe-answer
  delete_empty-Confined safe (d ∷ ds) h = Safe-fail _

  delete_directory-Confined :
      (safe : Text) (recursive : Bool)
      → IsBelow bs safe
      → Safe (Confined bs) Anything (delete_directory f safe recursive)
  unfolding delete_directory
  delete_directory-Confined safe recursive h =
      Safe-if recursive _ _
        (λ _.
          Safe-bind {R = Anything} _ _ (within_limit-Confined safe h)
            λ _ _. Safe-call (Call.remove_all safe) ret h Safe-answer)
        (λ _.
          Safe-bind {R = Anything} _ _ (Safe-call (Call.read_dir safe) ret h Safe-answer)
            λ ds _. delete_empty-Confined safe ds h)

  -- For a guard whose root is clean and absolute, every call that Delete makes, but os.Stat,
  -- EvalSymlinks and those on open files, names only paths below the root, whatever the system
  -- replies.
  pub delete-Confined :
      (path : Text) (recursive : Bool) → Safe (Confined bs) Anything (delete f path recursive)
  unfolding delete
  delete-Confined path recursive =
      Safe-bind _ _ (resolve_existing-Confined f.guard bs hf path) λ safe (ns, a, e).
        Safe-bind {R = Anything} _ _ (Safe-call (Call.stat safe) ret tt Safe-answer) λ info _.
          Safe-if info.is_dir _ _ (λ _. delete_directory-Confined safe recursive (ns, a.proper, e))
            (λ _. Safe-call (Call.remove safe) ret (ns, a.proper, e) Safe-answer)

  target_policy_checked-Confined :
      (overwrite : Bool) (r : Answer Info)
      → Safe (Confined bs) Anything (target_policy_checked overwrite r)
  unfolding target_policy_checked
  target_policy_checked-Confined overwrite (ok info) =
      Safe-if (not overwrite) _ _ (λ _. Safe-fail _)
        λ _. Safe-if info.is_dir _ _ (λ _. Safe-fail _) (λ _. Safe-return _ tt)
  target_policy_checked-Confined overwrite (err e) =
      Safe-if (is_not_exist e) _ _ (λ _. Safe-return _ tt) (λ _. Safe-fail e)

  ensure_target_policy-Confined :
      (target : Text) (overwrite : Bool)
      → Safe (Confined bs) Anything (ensure_target_policy target overwrite)
  unfolding ensure_target_policy
  ensure_target_policy-Confined target overwrite =
      Safe-attempt {R = Anything} _ _ (Safe-call (Call.stat target) ret tt Safe-answer)
        (λ info _. target_policy_checked-Confined overwrite (ok info))
        (λ e. target_policy_checked-Confined overwrite (err e))

  copy_opened-Confined :
      (file : ℕ) (target : Text) (overwrite : Bool) (perm : ℕ)
      → IsBelow bs target
      → Safe (Confined bs) Anything (copy_opened file target overwrite perm)
  unfolding copy_opened
  copy_opened-Confined file target overwrite perm h =
      Safe-bind {R = Anything} _ _
        (or_file_exists-Safe (Confined bs) _
          (Safe-call (Call.open_write target overwrite perm) ret h Safe-answer))
        λ target_file _.
          Safe-deferred (Call.close target_file) _ tt
            (Safe-call (Call.copy target_file file) ret tt Safe-answer)

  copy_checked-Confined :
      (source target : Text) (overwrite : Bool) (info : Info)
      → IsBelow bs source
      → IsBelow bs target
      → Safe (Confined bs) Anything (copy_checked f source target overwrite info)
  unfolding copy_checked
  copy_checked-Confined source target overwrite info hs ht =
      Safe-if info.is_dir _ _ (λ _. Safe-fail _)
        λ _.
          Safe-if (ltb f.limits.max_copy_bytes info.size) _ _ (λ _. Safe-fail _)
            λ _.
              Safe-bind {R = Anything} _ _ (ensure_target_policy-Confined target overwrite) λ _ _.
                Safe-bind {R = Anything} _ _ (Safe-call (Call.open_read source) ret hs Safe-answer)
                  λ file _.
                    Safe-deferred (Call.close file) _ tt
                      (copy_opened-Confined file target overwrite info.perm ht)

  -- For a guard whose root is clean and absolute, every call that Copy makes, but os.Stat,
  -- EvalSymlinks and those on open files, names only paths below the root, whatever the system
  -- replies.
  pub copy-Confined :
      (source target : Text) (overwrite : Bool)
      → Safe (Confined bs) Anything (copy f source target overwrite)
  unfolding copy
  copy-Confined source target overwrite =
      Safe-bind _ _ (resolve_existing-Confined f.guard bs hf source) λ s (ns, a, e).
        Safe-bind _ _ (resolve_for_create-Confined f.guard bs hf target) λ t (ms, b, d).
          Safe-bind {R = Anything} _ _ (Safe-call (Call.stat s) ret tt Safe-answer)
            λ info _. copy_checked-Confined s t overwrite info (ns, a.proper, e) (ms, b.proper, d)
