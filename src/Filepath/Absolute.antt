-- ===== src/Filepath/Absolute.antt =====
-- Cleaning an absolute path.
use flashgate_mcp.Base.{◌≡◌, refl, ap, ◌∙◌, true, List, [], ◌∷◌, ◌++◌, Text, arith, All}
use flashgate_mcp.Filepath.{
  Cleaned, IsName, clean_up, clean_step, clean_loop, read_path, write_path, clean, is_abs,
  join_path, split_slash,
}
use flashgate_mcp.Filepath.Cleaning.{at, IsClean, read_path-IsClean}

clean_up-rooted : (c : Cleaned) → (clean_up c).rooted ≡ c.rooted
unfolding clean_up
clean_up-rooted c = ground arith

clean_step-rooted : (c : Cleaned) (p : Text) → (clean_step c p).rooted ≡ c.rooted
unfolding clean_step
clean_step-rooted c p = ground (arith, clean_up-rooted c)

clean_loop-rooted : (c : Cleaned) (ps : List Text) → (clean_loop c ps).rooted ≡ c.rooted
unfolding clean_loop
clean_loop-rooted c [] = refl
clean_loop-rooted c (p ∷ ps) = clean_loop-rooted (clean_step c p) ps ∙ clean_step-rooted c p

read_path-rooted : (s : Text) → (read_path s).rooted ≡ is_abs s
unfolding read_path
read_path-rooted s = clean_loop-rooted _ (split_slash s)

-- A path below "/", by its names.
abbrev pub IsAbsolute : Text → Type 0
IsAbsolute p = (ns : List Text) × All IsName ns × (p ≡ write_path (at true 0 ns))

write_path-IsAbsolute : (c : Cleaned) → IsClean c → c.rooted ≡ true → IsAbsolute (write_path c)
write_path-IsAbsolute c h r = (
  c.names,
  h.all_names,
  ap write_path (ap (λ b. record { rooted = b; ups = c.ups; names = c.names }) r)
      ∙ ap (λ u. write_path (at true u c.names)) (h.at_root r),
)

pub clean-IsAbsolute : (s : Text) → is_abs s ≡ true → IsAbsolute (clean s)
unfolding clean
clean-IsAbsolute s a =
    write_path-IsAbsolute (read_path s) (read_path-IsClean s) (read_path-rooted s ∙ a)

pub join_path-IsAbsolute : (p q : Text) → is_abs p ≡ true → IsAbsolute (join_path p q)
unfolding join_path is_abs
join_path-IsAbsolute [] q a = absurd (ground arith)
join_path-IsAbsolute (c ∷ s) [] a = clean-IsAbsolute (c ∷ s) a
join_path-IsAbsolute (c ∷ s) (d ∷ t) a = clean-IsAbsolute ((c ∷ s) ++ b'/' ∷ d ∷ t) a
