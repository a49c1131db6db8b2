-- ===== src/Filepath/Cleaning.antt =====
-- `filepath.Clean`: the names that it keeps, and its result read again.
use flashgate_mcp.Base.{
  ℕ, zero, suc, ◌+◌, ◌≡◌, ◌≢◌, refl, ap, ◌∙◌, Bool, true, false, List, [], ◌∷◌, ◌++◌, arith,
  append_assoc, append-nil, All, All-append, All-drop_last, Text, text_eq, text_eq_iff, replicate,
}
use flashgate_mcp.Filepath.{
  dot, up, Cleaned, NoSlash, IsName, split_slash, join_slash, is_abs, clean_up, clean_step,
  clean_loop, read_path, write_relative, write_path, clean,
}
use flashgate_mcp.Filepath.Splitting.{split-join, split-NoSlash}

-- A path that `Clean` can produce: proper names, and no `..` left over at the root.
pub record IsClean (c : Cleaned) : Type 0 where
  pub all_names : All IsName c.names
  pub at_root : c.rooted ≡ true → c.ups ≡ 0

clean_up-IsClean : (c : Cleaned) → IsClean c → IsClean (clean_up c)
unfolding clean_up
clean_up-IsClean c h = record {
  all_names = ground (arith, All-drop_last IsName c.names h.all_names);
  at_root = ground arith;
}

clean_step-name :
    (c : Cleaned) (p : Text) → IsName p → clean_step c p ≡ record c { names = c.names ++ p ∷ [] }
unfolding clean_step
clean_step-name c p h = ground (arith, text_eq_iff p [], text_eq_iff p dot, text_eq_iff p up)

clean_step-IsClean : (c : Cleaned) (p : Text) → NoSlash p → IsClean c → IsClean (clean_step c p)
unfolding clean_step
clean_step-IsClean c p n h = record {
  all_names = ground (
    arith,
    text_eq_iff p [],
    text_eq_iff p dot,
    text_eq_iff p up,
    clean_up-IsClean c h,
    All-append IsName c.names (p ∷ []) h.all_names,
  );
  at_root = ground (arith, (clean_up-IsClean c h).at_root);
}

pub clean_loop-IsClean :
    (c : Cleaned) (ps : List Text) → All NoSlash ps → IsClean c → IsClean (clean_loop c ps)
unfolding clean_loop
clean_loop-IsClean c [] n h = h
clean_loop-IsClean c (p ∷ ps) n h =
    clean_loop-IsClean (clean_step c p) ps n.1 (clean_step-IsClean c p n.0 h)

-- Every path is read as a clean one.
pub read_path-IsClean : (s : Text) → IsClean (read_path s)
unfolding read_path
read_path-IsClean s =
    clean_loop-IsClean _ (split_slash s) (split-NoSlash s)
      (record { all_names = tt; at_root = λ _. refl })

-- Proper names are appended one after the other.
pub clean_loop-names :
    (c : Cleaned) (ps : List Text)
    → All IsName ps
    → clean_loop c ps ≡ record c { names = c.names ++ ps }
unfolding clean_loop
clean_loop-names c [] h = rw append-nil
clean_loop-names c (p ∷ ps) h =
    rw (clean_step-name c p h.0)
      (clean_loop-names (record c { names = c.names ++ p ∷ [] }) ps h.1 ∙ rw append_assoc)

pub clean_loop-append :
    (c : Cleaned) (ps qs : List Text) → clean_loop c (ps ++ qs) ≡ clean_loop (clean_loop c ps) qs
unfolding clean_loop
clean_loop-append c [] qs = refl
clean_loop-append c (p ∷ ps) qs = clean_loop-append (clean_step c p) ps qs

abbrev pub at : Bool → ℕ → List Text → Cleaned
at r u ns = record { rooted = r; ups = u; names = ns }

-- Unresolved parents that stand in front are counted.
clean_loop-ups :
    (u n : ℕ) (ps : List Text)
    → clean_loop (at false u []) (replicate n up ++ ps) ≡ clean_loop (at false (u + n) []) ps
unfolding clean_loop clean_step clean_up text_eq
clean_loop-ups u zero ps = ap (λ k. clean_loop (at false k []) ps) (omega arith)
clean_loop-ups u (suc n) ps =
    clean_loop-ups (u + 1) n ps ∙ ap (λ k. clean_loop (at false k []) ps) (omega arith)

pub NoSlash-names : (ns : List Text) → All IsName ns → All NoSlash ns
NoSlash-names [] h = tt
NoSlash-names (p ∷ ns) h = (h.0.no_slash, NoSlash-names ns h.1)

NoSlash-up : NoSlash up
NoSlash-up = (ground arith, (ground arith, tt))

NoSlash-ups : (u : ℕ) (ns : List Text) → All NoSlash ns → All NoSlash (replicate u up ++ ns)
NoSlash-ups zero ns h = h
NoSlash-ups (suc u) ns h = (NoSlash-up, NoSlash-ups u ns h)

-- Reading the names that were joined behind a path appends them.
pub clean_loop-join :
    (c : Cleaned) (ns : List Text)
    → All IsName ns
    → clean_loop c (split_slash (join_slash ns)) ≡ record c { names = c.names ++ ns }
clean_loop-join c [] h =
    unfold clean_loop clean_step split_slash join_slash text_eq in rw append-nil
clean_loop-join c (p ∷ ns) h =
    rw (split-join p ns (NoSlash-names (p ∷ ns) h)) (clean_loop-names c (p ∷ ns) h)

pub clean_loop-relative :
    (c : Cleaned) (ns : List Text)
    → All IsName ns
    → clean_loop c (split_slash (write_relative ns)) ≡ record c { names = c.names ++ ns }
clean_loop-relative c [] h =
    unfold clean_loop clean_step split_slash write_relative text_eq in rw append-nil
clean_loop-relative c (p ∷ ns) h = unfold write_relative in clean_loop-join c (p ∷ ns) h

is_abs-join :
    (p : Text) (ps : List Text) → p ≢ [] → NoSlash p → is_abs (join_slash (p ∷ ps)) ≡ false
unfolding is_abs join_slash
is_abs-join [] ps n h = absurd (n refl)
is_abs-join (c ∷ p) [] n h = ground arith
is_abs-join (c ∷ p) (q ∷ ps) n h = ground arith

pub is_abs-relative :
    (u : ℕ) (ns : List Text)
    → All IsName ns
    → is_abs (write_relative (replicate u up ++ ns)) ≡ false
unfolding write_relative
is_abs-relative zero [] h = unfold is_abs in ground arith
is_abs-relative zero (p ∷ ns) h = is_abs-join p ns h.0.non_empty h.0.no_slash
is_abs-relative (suc u) ns h = is_abs-join up (replicate u up ++ ns) (ground arith) NoSlash-up

-- An empty element is skipped.
pub clean_loop-skip : (c : Cleaned) (ps : List Text) → clean_loop c ([] ∷ ps) ≡ clean_loop c ps
unfolding clean_loop clean_step text_eq
clean_loop-skip c ps = refl

read_written :
    (r : Bool) (u : ℕ) (ns : List Text)
    → All IsName ns
    → (r ≡ true → u ≡ 0)
    → read_path (write_path (at r u ns)) ≡ at r u ns
unfolding read_path write_path
read_written true u ns h z = rw (z refl) (
    clean_loop-skip (at true 0 []) (split_slash (join_slash ns))
    ∙ clean_loop-join (at true 0 []) ns h)
read_written false zero ns h z =
    rw (is_abs-relative zero ns h) (clean_loop-relative (at false 0 []) ns h)
read_written false (suc u) ns h z = rw (is_abs-relative (suc u) ns h) (
    rw (split-join up (replicate u up ++ ns) (NoSlash-up, NoSlash-ups u ns (NoSlash-names ns h))) (
      clean_loop-ups 0 (suc u) ns
      ∙ clean_loop-names (at false (0 + suc u) []) ns h
      ∙ ap (λ k. at false k ns) (omega arith)))

-- A clean path that is written and read again is the same path.
pub read_path-write_path : (c : Cleaned) → IsClean c → read_path (write_path c) ≡ c
read_path-write_path c h = read_written c.rooted c.ups c.names h.all_names h.at_root

-- `Clean` is idempotent.
pub clean_idempotent : (s : Text) → clean (clean s) ≡ clean s
unfolding clean
clean_idempotent s = ap write_path (read_path-write_path (read_path s) (read_path-IsClean s))
