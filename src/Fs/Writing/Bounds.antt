-- ===== src/Fs/Writing/Bounds.antt =====
-- Write, Copy and Delete of internal/fs: their limits, and their calls without overwriting.
use flashgate_mcp.Base.{
  ℕ, suc, ◌+◌, ◌≡◌, ◌<◌, ◌≤◌, refl, Bool, false, not, List, [], ◌∷◌, length, Text, text_eq, ltb,
  arith, none, All, if◌then◌else◌, ◌↔◌, ◌==◌, subst,
}
use flashgate_mcp.Errors.{Answer, ok, err, is_not_exist, is_exist}
use flashgate_mcp.Os.{Os, Info, Visit, Call, ret, and_then, perform, run, Reply}
use flashgate_mcp.Os.Rules.{
  Safe, Anything, Safe-return, Safe-fail, Safe-call, Safe-if, Safe-answer, Safe-bind, Safe-attempt,
  Safe-deferred, Safe-weaken,
}
use flashgate_mcp.Security.Lexical.{IsRooted}
use flashgate_mcp.Security.Looking.{Looking, resolve_existing-Looking}
use flashgate_mcp.Security.Parents.{resolve_for_create-Looking}
use flashgate_mcp.Fs.Types.{LocalFileSystem}
use flashgate_mcp.Fs.Writing.{
  write, write_checked, count_visits, or_file_exists, write_content, write_opened, copy,
  copy_checked, copy_opened, ensure_target_policy, target_policy_checked,
  ensure_recursive_delete_within_limit,
}

-- What the walk below `root` counts: the entries other than the root itself.
abbrev pub entries_below : Text → List Visit → ℕ
entries_below root [] = 0
entries_below root (v ∷ vs) =
    let n = entries_below root vs in if text_eq v.path root then n else suc n

abbrev pub Walked : List Visit → Type 0
Walked = All (λ (v : Visit). v.failure ≡ none)

module _ (limit : ℕ) (root : Text) where
  visits_within :
      (n : ℕ) (vs : List Visit)
      → n ≤ limit
      → (count_visits limit root n vs ≡ ok tt) ↔ (Walked vs × (n + entries_below root vs ≤ limit))
  unfolding count_visits
  visits_within n [] h = ground arith
  visits_within n (v ∷ vs) h = ground (arith, visits_within n vs, visits_within (suc n) vs)

-- The walk before a recursive delete succeeds exactly if it meets no error and the entries below
-- its root are no more than the limit.
pub recursive_delete-limit :
    (h : (c : Call) → Reply c) (f : LocalFileSystem) (root : Text)
    → (run h (ensure_recursive_delete_within_limit f root) ≡ ok tt) ↔ (
        Walked (h (Call.walk_dir root))
        × (entries_below root (h (Call.walk_dir root)) ≤ f.limits.max_delete_entries))
unfolding ensure_recursive_delete_within_limit run and_then
recursive_delete-limit h f root =
    let visits = h (Call.walk_dir root) in
    let limit = f.limits.max_delete_entries in
    subst (λ n. (count_visits limit root 0 visits ≡ ok tt) ↔ (Walked visits × (n ≤ limit)))
      (omega arith) (visits_within limit root 0 visits (omega arith))

module _ (f : LocalFileSystem) (bs : List Text) (hf : IsRooted f.guard bs) where
  -- For a guard whose root is clean and absolute, content that is longer than the limit is never
  -- written: the answer is an error and nothing but looks at the path, whatever the system
  -- replies.
  pub write-limit :
      (path : Text) (content : List ℕ) (overwrite : Bool)
      → f.limits.max_write_bytes < length content
      → Safe (Looking bs) (λ _. ⊥) (write f path content overwrite)
  unfolding write
  write-limit path content overwrite h =
      Safe-bind _ _ (resolve_for_create-Looking f.guard bs hf path) λ safe _.
        Safe-if (ltb f.limits.max_write_bytes (length content)) _ _ (λ _. Safe-fail _)
          λ e. absurd (ground arith)

-- Nothing that is there is emptied, removed or renamed.
abbrev pub Keeps : Call → Type 0
Keeps (Call.open_write p truncate m) = truncate ≡ false
Keeps (Call.remove p) = ⊥
Keeps (Call.remove_all p) = ⊥
Keeps (Call.rename p q) = ⊥
Keeps _ = Unit

Looking-Keeps : (bs : List Text) (c : Call) → Looking bs c → Keeps c
Looking-Keeps bs (Call.lstat p) h = tt
Looking-Keeps bs (Call.eval_symlinks p) h = tt
Looking-Keeps bs _ h = absurd h

module _ {A : Type 0} where
  or_file_exists-Keeps :
      (m : Os (Answer A))
      → Safe Keeps Anything m
      → Safe Keeps Anything (and_then m (or_file_exists {A = A}))
  unfolding or_file_exists
  or_file_exists-Keeps m h =
      Safe-attempt _ _ h (λ a q. Safe-return a q)
        (λ e. Safe-if (is_exist e) _ _ (λ _. Safe-fail _) (λ _. Safe-fail _))

open_new-Keeps :
    (p : Text) (m : ℕ)
    → Safe Keeps Anything (and_then (perform (Call.open_write p false m)) (or_file_exists {A = ℕ}))
open_new-Keeps p m =
    or_file_exists-Keeps (perform (Call.open_write p false m))
      (Safe-call (Call.open_write p false m) ret refl Safe-answer)

write_opened-Keeps :
    (safe : Text) (content : List ℕ) → Safe Keeps Anything (write_opened safe content false)
unfolding write_opened write_content
write_opened-Keeps safe content = Safe-bind {R = Anything} _ _ (open_new-Keeps safe 0o600) λ file _.
    Safe-deferred (Call.close file) _ tt (
      Safe-bind {R = Anything} _ _ (Safe-call (Call.write file content) ret tt Safe-answer)
        λ n _. Safe-if (n == length content) _ _ (λ _. Safe-return _ tt) (λ _. Safe-fail _))

write_checked-Keeps :
    (safe : Text) (content : List ℕ) (r : Answer Info)
    → Safe Keeps Anything (write_checked safe content false r)
unfolding write_checked
write_checked-Keeps safe content (ok info) =
    Safe-if info.is_dir _ _ (λ _. Safe-fail _) (λ _. Safe-fail _)
write_checked-Keeps safe content (err e) =
    Safe-if (not (is_not_exist e)) _ _ (λ _. Safe-fail _) (λ _. write_opened-Keeps safe content)

ensure_target-Keeps : (t : Text) → Safe Keeps Anything (ensure_target_policy t false)
unfolding ensure_target_policy target_policy_checked
ensure_target-Keeps t =
    Safe-attempt {R = Anything} _ _ (Safe-call (Call.stat t) ret tt Safe-answer)
      (λ info _. Safe-fail _)
      (λ e. Safe-if (is_not_exist e) _ _ (λ _. Safe-return _ tt) (λ _. Safe-fail _))

module _ (f : LocalFileSystem) (bs : List Text) (hf : IsRooted f.guard bs) where
  -- For a guard whose root is clean and absolute, and without overwriting, Write opens no file for
  -- emptying, and removes and renames nothing, whatever the system replies.
  pub write-Keeps :
      (path : Text) (content : List ℕ) → Safe Keeps Anything (write f path content false)
  unfolding write
  write-Keeps path content =
      Safe-bind _ _
        (Safe-weaken (Looking-Keeps bs) _ (resolve_for_create-Looking f.guard bs hf path))
        λ safe _.
          Safe-if (ltb f.limits.max_write_bytes (length content)) _ _ (λ _. Safe-fail _)
            λ _.
              Safe-attempt {R = Anything} _ _ (Safe-call (Call.stat safe) ret tt Safe-answer)
                (λ info _. write_checked-Keeps safe content (ok info))
                (λ e. write_checked-Keeps safe content (err e))

  -- For a guard whose root is clean and absolute, and without overwriting, Copy opens no file for
  -- emptying, and removes and renames nothing, whatever the system replies.
  pub copy-Keeps : (source target : Text) → Safe Keeps Anything (copy f source target false)
  unfolding copy copy_checked copy_opened
  copy-Keeps source target =
      Safe-bind _ _
        (Safe-weaken (Looking-Keeps bs) _ (resolve_existing-Looking f.guard bs hf source))
        λ s _.
          Safe-bind _ _
            (Safe-weaken (Looking-Keeps bs) _ (resolve_for_create-Looking f.guard bs hf target))
            λ t _.
              Safe-bind {R = Anything} _ _ (Safe-call (Call.stat s) ret tt Safe-answer) λ info _.
                Safe-if info.is_dir _ _ (λ _. Safe-fail _)
                  λ _.
                    Safe-if (ltb f.limits.max_copy_bytes info.size) _ _ (λ _. Safe-fail _)
                      λ _. Safe-bind {R = Anything} _ _ (ensure_target-Keeps t) λ _ _.
                        Safe-bind {R = Anything} _ _
                          (Safe-call (Call.open_read s) ret tt Safe-answer)
                          λ i _. Safe-deferred (Call.close i) _ tt (
                            Safe-bind {R = Anything} _ _ (open_new-Keeps t info.perm) λ o _.
                              Safe-deferred (Call.close o) _ tt
                                (Safe-call (Call.copy o i) ret tt Safe-answer))
