-- ===== src/Os.antt =====
-- Package os and the file system behind it. A function of the program that uses them is a tree of
-- calls, each with a branch for every reply, whatever other processes do to the files between two
-- calls.
pub mod Rules
pub mod World
use flashgate_mcp.Base.{ℕ, Bool, List, Option, Text}
use flashgate_mcp.Errors.{Error, Answer, ok, err}

-- `os.FileInfo`; `dev` and `ino` are what `os.SameFile` and the volume test compare.
pub record Info : Type 0 where
  pub name : Text
  pub is_dir : Bool
  pub symlink : Bool
  pub size : ℕ
  pub perm : ℕ
  pub dev : ℕ
  pub ino : ℕ

-- `os.DirEntry`
pub record DirEntry : Type 0 where
  pub name : Text
  pub is_dir : Bool

-- One call of the callback of `filepath.WalkDir`.
pub record Visit : Type 0 where
  pub path : Text
  pub failure : Option Error

pub data Call : Type 0 where
  getwd : Call
  lstat stat eval_symlinks read_dir read_file open_read walk_dir remove remove_all : Text → Call
  -- `DirEntry.Info`, of an entry of a directory
  entry_info : Text → Text → Call
  -- with O_WRONLY and O_CREATE; the flag chooses O_TRUNC, or O_EXCL
  open_write : Text → Bool → ℕ → Call
  mkdir mkdir_all : Text → ℕ → Call
  rename : Text → Text → Call
  -- on open files
  write : ℕ → List ℕ → Call
  copy : ℕ → ℕ → Call
  close : ℕ → Call

abbrev pub Reply : Call → Type 0
Reply getwd = Answer Text
Reply (lstat p) = Answer Info
Reply (stat p) = Answer Info
Reply (eval_symlinks p) = Answer Text
Reply (read_dir p) = Answer (List DirEntry)
Reply (read_file p) = Answer (List ℕ)
Reply (open_read p) = Answer ℕ
Reply (walk_dir p) = List Visit
Reply (remove p) = Answer Unit
Reply (remove_all p) = Answer Unit
Reply (entry_info p n) = Answer Info
Reply (open_write p t m) = Answer ℕ
Reply (mkdir p m) = Answer Unit
Reply (mkdir_all p m) = Answer Unit
Reply (rename p q) = Answer Unit
Reply (write h bytes) = Answer ℕ
Reply (copy h i) = Answer Unit
Reply (close h) = Unit

pub data Os (A : Type 0) : Type 0 where
  ret : A → Os A
  call : (c : Call) → (Reply c → Os A) → Os A

abbrev pub perform : (c : Call) → Os (Reply c)
perform c = call c ret

unfoldable pub and_then : {A B : Type 0} → Os A → (A → Os B) → Os B
and_then (ret a) f = f a
and_then (call c k) f = call c (λ r. and_then (k r) f)

-- `if err != nil { return err }`
abbrev pub on_ok : {A B : Type 0} → (A → Os (Answer B)) → Answer A → Os (Answer B)
on_ok f (ok a) = f a
on_ok f (err e) = ret (err e)

infixl 5 ◌>>=◌ ◌>>◌
abbrev pub ◌>>=◌ : {A B : Type 0} → Os (Answer A) → (A → Os (Answer B)) → Os (Answer B)
m >>= f = and_then m (on_ok f)

abbrev pub ◌>>◌ : {B : Type 0} → Os (Answer Unit) → Os (Answer B) → Os (Answer B)
m >> k = m >>= λ _. k

abbrev pub return : {A : Type 0} → A → Os (Answer A)
return a = ret (ok a)

abbrev pub fail : {A : Type 0} → Error → Os (Answer A)
fail e = ret (err e)

-- A deferred call, made behind the body whatever that returned.
abbrev pub deferred : {A : Type 0} → Call → Os A → Os A
deferred c m = and_then m (λ a. call c (λ _. ret a))

-- A run against a file system that does not change in between: each call has one reply.
unfoldable pub run : {A : Type 0} → ((c : Call) → Reply c) → Os A → A
run h (ret a) = a
run h (call c k) = run h (k (h c))
