-- ===== src/Filepath/Splitting.antt =====
-- `strings.Split` and `strings.Join` at the separator.
use flashgate_mcp.Base.{ℕ, ◌≡◌, ◌≢◌, refl, List, [], ◌∷◌, ◌++◌, arith, All, Text}
use flashgate_mcp.Filepath.{split_slash, join_slash, push_front, NoSlash}

split_name : (p : Text) → NoSlash p → split_slash p ≡ p ∷ []
unfolding split_slash
split_name [] h = refl
split_name (c ∷ p) h = ground (arith, split_name p)

split_first : (p s : Text) → NoSlash p → split_slash (p ++ b'/' ∷ s) ≡ p ∷ split_slash s
unfolding split_slash
split_first [] s h = refl
split_first (c ∷ p) s h = ground (arith, split_first p s)

-- Splitting gives back the elements that were joined, if none holds a separator.
pub split-join :
    (p : Text) (ps : List Text) → All NoSlash (p ∷ ps) → split_slash (join_slash (p ∷ ps)) ≡ p ∷ ps
unfolding join_slash
split-join p [] h = split_name p h.0
split-join p (q ∷ ps) (n, h) = ground (arith, split_first p (join_slash (q ∷ ps)), split-join q ps)

push_front-NoSlash :
    (c : ℕ) (ps : List Text) → c ≢ b'/' → All NoSlash ps → All NoSlash (push_front c ps)
push_front-NoSlash c [] n h = ((n, tt), tt)
push_front-NoSlash c (p ∷ ps) n h = ((n, h.0), h.1)

-- No element of a split text holds a separator.
pub split-NoSlash : (s : Text) → All NoSlash (split_slash s)
unfolding split_slash
split-NoSlash [] = (tt, tt)
split-NoSlash (c ∷ s) = ground (arith, split-NoSlash s, push_front-NoSlash c (split_slash s))
