-- ===== src/Security/Samples.antt =====
-- A guard at /srv, and a system behind it.
use flashgate_mcp.Base.{Text, List, [], ◌∷◌, ◌++◌, codes, true, false, refl, arith, none, length}
use flashgate_mcp.Errors.{ok}
use flashgate_mcp.Os.{Call, Reply, Info}
use flashgate_mcp.Filepath.{IsName}
use flashgate_mcp.Security.{PathGuard, default_policy}
use flashgate_mcp.Security.Lexical.{below, IsRooted}

abbrev pub srv : List Text
srv = codes "srv" ∷ []

abbrev pub guard : PathGuard
guard = record { root = below srv; effective_root = codes "/srv"; policy = default_policy }

srv-IsName : IsName (codes "srv")
srv-IsName = record {
  non_empty = ground arith;
  not_dot = ground arith;
  not_up = ground arith;
  no_slash = (ground arith, (ground arith, (ground arith, tt)));
}

pub guard-IsRooted : IsRooted guard srv
guard-IsRooted = record { proper = (srv-IsName, tt); root_eq = refl }

abbrev pub file_info : Info
file_info = record {
  name = codes "a";
  is_dir = false;
  symlink = false;
  size = 3;
  perm = 0o644;
  dev = 1;
  ino = 7;
}

-- Everything is there: directories where links lead, and files of three bytes elsewhere.
abbrev pub system : (c : Call) → Reply c
system Call.getwd = ok (codes "/")
system (Call.lstat p) = ok file_info
system (Call.stat p) = ok (record file_info { is_dir = true })
system (Call.eval_symlinks p) = ok p
system (Call.read_dir p) = ok []
system (Call.read_file p) = ok (1 ∷ 2 ∷ 3 ∷ [])
system (Call.open_read p) = ok 3
system (Call.walk_dir p) =
    record { path = p; failure = none } ∷ record { path = p ++ codes "/a"; failure = none } ∷ []
system (Call.remove p) = ok tt
system (Call.remove_all p) = ok tt
system (Call.entry_info p n) = ok file_info
system (Call.open_write p t m) = ok 4
system (Call.mkdir p m) = ok tt
system (Call.mkdir_all p m) = ok tt
system (Call.rename p q) = ok tt
system (Call.write h bytes) = ok (length bytes)
system (Call.copy h i) = ok tt
system (Call.close h) = tt
