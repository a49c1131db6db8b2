-- ===== src/Filepath/Joining.antt =====
-- Joining paths, the directory of a path, and the relative path between two of them.
use flashgate_mcp.Base.{
  ℕ, ◌≡◌, ◌≢◌, refl, ◌∙◌, true, List, [], ◌∷◌, ◌++◌, arith, ◌==◌, if◌then◌else◌, All, All-append,
  All-drop_last, Text, drop_last, ap, sym,
}
use flashgate_mcp.Filepath.{
  NoSlash, IsName, split_slash, join_slash, is_abs, clean_loop, read_path, write_path, clean,
  push_front, join_path, dir,
}
use flashgate_mcp.Filepath.Splitting.{split-join}
use flashgate_mcp.Filepath.Cleaning.{
  at, read_path-IsClean, read_path-write_path, clean_loop-append, clean_loop-names, clean_loop-skip,
  NoSlash-names, clean_idempotent,
}

split-ne-nil : (s : Text) → split_slash s ≢ []
unfolding split_slash
split-ne-nil [] = cc
split-ne-nil (c ∷ s) =
    elim (split_slash s) as (λ r. (if c == b'/' then [] ∷ r else push_front c r) ≢ []) [
      | [] ↦ ground arith
      | p ∷ ps ↦ ground arith
    ]

push_front-append :
    (c : ℕ) (ps qs : List Text) → ps ≢ [] → push_front c ps ++ qs ≡ push_front c (ps ++ qs)
push_front-append c [] qs n = absurd (n refl)
push_front-append c (p ∷ ps) qs n = refl

-- A separator ends the elements of what stands before it.
split-append : (s t : Text) → split_slash (s ++ b'/' ∷ t) ≡ split_slash s ++ split_slash t
unfolding split_slash
split-append [] t = refl
split-append (c ∷ s) t =
    ground (
      arith,
      split-append s t,
      push_front-append c (split_slash s) (split_slash t) (split-ne-nil s),
    )

-- Joining reads the second path behind the first.
pub read_path-join :
    (s t : Text)
    → s ≢ []
    → t ≢ []
    → read_path (join_path s t) ≡ clean_loop (read_path s) (split_slash t)
unfolding join_path clean
read_path-join [] t n m = absurd (n refl)
read_path-join (c ∷ s) [] n m = absurd (m refl)
read_path-join (c ∷ s) (d ∷ t) n m =
    rw (read_path-write_path _ (read_path-IsClean ((c ∷ s) ++ b'/' ∷ d ∷ t))) (
      unfold read_path in
      rw (split-append (c ∷ s) (d ∷ t))
        (clean_loop-append _ (split_slash (c ∷ s)) (split_slash (d ∷ t))))

pub read_path-clean : (s : Text) → read_path (clean s) ≡ read_path s
unfolding clean
read_path-clean s = read_path-write_path _ (read_path-IsClean s)

split-join_snoc :
    (ds : List Text) → All NoSlash ds → split_slash (join_slash (ds ++ [] ∷ [])) ≡ ds ++ [] ∷ []
split-join_snoc [] h = split-join [] [] (tt, tt)
split-join_snoc (d ∷ ds) h =
    split-join d (ds ++ [] ∷ []) (h.0, All-append NoSlash ds ([] ∷ []) h.1 (tt, tt))

-- A separator at the end changes nothing.
read_path-trailing :
    (ds : List Text) → All IsName ds → read_path (b'/' ∷ join_slash (ds ++ [] ∷ [])) ≡ at true 0 ds
unfolding read_path
read_path-trailing ds h =
    clean_loop-skip (at true 0 []) (split_slash (join_slash (ds ++ [] ∷ [])))
    ∙ rw (split-join_snoc ds (NoSlash-names ds h)) (
        clean_loop-append (at true 0 []) ds ([] ∷ [])
        ∙ rw (clean_loop-names (at true 0 []) ds h) (clean_loop-skip (at true 0 ds) []))

join-root : (ds : List Text) → join_slash ([] ∷ (ds ++ [] ∷ [])) ≡ b'/' ∷ join_slash (ds ++ [] ∷ [])
unfolding join_slash
join-root [] = refl
join-root (d ∷ ds) = refl

-- The directory of a path below the root is the path without its last name.
pub read_path-dir :
    (ns : List Text)
    → All IsName ns
    → read_path (dir (write_path (at true 0 ns))) ≡ at true 0 (drop_last ns)
unfolding dir write_path
read_path-dir [] h =
    unfold split_slash join_slash in
    read_path-clean (b'/' ∷ [])
    ∙ unfold read_path split_slash is_abs in
      clean_loop-skip (at true 0 []) ([] ∷ []) ∙ clean_loop-skip (at true 0 []) []
read_path-dir (p ∷ ns) h = rw read_path-clean (
    unfold split_slash in
    rw (split-join p ns (NoSlash-names (p ∷ ns) h)) (
      rw (join-root (drop_last (p ∷ ns)))
        (read_path-trailing (drop_last (p ∷ ns)) (All-drop_last IsName (p ∷ ns) h))))

-- A joined path is clean, so that cleaning it again changes nothing.
pub join_path_lem :
    (s t : Text)
    → s ≢ []
    → t ≢ []
    → join_path s t ≡ write_path (clean_loop (read_path s) (split_slash t))
unfolding join_path clean
join_path_lem [] t n m = absurd (n refl)
join_path_lem (c ∷ s) [] n m = absurd (m refl)
join_path_lem (c ∷ s) (d ∷ t) n m =
    unfold read_path in
    rw (split-append (c ∷ s) (d ∷ t))
      (ap write_path (clean_loop-append _ (split_slash (c ∷ s)) (split_slash (d ∷ t))))

clean-dir : (s : Text) → clean (dir s) ≡ dir s
unfolding dir
clean-dir s = clean_idempotent (join_slash (drop_last (split_slash s) ++ [] ∷ []))

-- The directory of some names below "/" is that of all but the last.
pub dir-names :
    (ns : List Text)
    → All IsName ns
    → dir (write_path (at true 0 ns)) ≡ write_path (at true 0 (drop_last ns))
dir-names ns h =
    sym (clean-dir (write_path (at true 0 ns))) ∙ unfold clean in ap write_path (read_path-dir ns h)
