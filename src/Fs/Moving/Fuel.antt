-- ===== src/Fs/Moving/Fuel.antt =====
-- effectivePathForComparison and pathsOnSameVolume of internal/fs: the rounds of their loops.
use flashgate_mcp.Base.{
  ℕ, zero, suc, ◌+◌, ◌<◌, ◌≡◌, refl, ap, sym, ◌∙◌, List, [], ◌∷◌, length, arith, All, All-drop_last,
  Text, text_eq_iff, drop_last,
}
use flashgate_mcp.Os.{Info, and_then}
use flashgate_mcp.Filepath.{IsName, split_slash}
use flashgate_mcp.Filepath.Joining.{dir-names}
use flashgate_mcp.Security.Lexical.{below}
use flashgate_mcp.Security.Fuel.{length-drop_last, length-split, clean-below}
use flashgate_mcp.Fs.Moving.{base, effective_loop, effective_path_for_comparison, same_volume_loop}

effective_loop-stable :
    (fuel : ℕ) (ns missing : List Text)
    → All IsName ns
    → length ns < fuel
    → effective_loop (suc fuel) (below ns) missing ≡ effective_loop fuel (below ns) missing
unfolding effective_loop and_then
effective_loop-stable zero ns missing h e = absurd (omega arith)
effective_loop-stable (suc fuel) [] missing h e =
    rw (dir-names [] h, (text_eq_iff (below []) (below [])).1 refl) refl
effective_loop-stable (suc fuel) (p ∷ ns) missing h e =
    let rest = drop_last (p ∷ ns) in
    let ih =
      effective_loop-stable fuel rest (base (below (p ∷ ns)) ∷ missing)
        (All-drop_last IsName (p ∷ ns) h) (omega (arith, length-drop_last p ns)) in
    rw (dir-names (p ∷ ns) h) (rw ih refl)

same_volume_loop-stable :
    (fuel : ℕ) (source : Info) (ns : List Text)
    → All IsName ns
    → length ns < fuel
    → same_volume_loop (suc fuel) source (below ns) ≡ same_volume_loop fuel source (below ns)
unfolding same_volume_loop and_then
same_volume_loop-stable zero source ns h e = absurd (omega arith)
same_volume_loop-stable (suc fuel) source [] h e =
    rw (dir-names [] h, (text_eq_iff (below []) (below [])).1 refl) refl
same_volume_loop-stable (suc fuel) source (p ∷ ns) h e =
    let rest = drop_last (p ∷ ns) in
    let ih =
      same_volume_loop-stable fuel source rest (All-drop_last IsName (p ∷ ns) h)
        (omega (arith, length-drop_last p ns)) in
    rw (dir-names (p ∷ ns) h) (rw ih refl)

effective_loop-more :
    (k fuel : ℕ) (ns missing : List Text)
    → All IsName ns
    → length ns < fuel
    → effective_loop (k + fuel) (below ns) missing ≡ effective_loop fuel (below ns) missing
effective_loop-more zero fuel ns missing h e =
    ap (λ n. effective_loop n (below ns) missing) (omega arith)
effective_loop-more (suc k) fuel ns missing h e =
    let sum : suc k + fuel ≡ suc (k + fuel) = omega arith in
    ap (λ n. effective_loop n (below ns) missing) sum
    ∙ effective_loop-stable (k + fuel) ns missing h (omega arith)
    ∙ effective_loop-more k fuel ns missing h e

-- The same for the target's volume, with any number of further rounds.
pub same_volume_loop-more :
    (k fuel : ℕ) (source : Info) (ns : List Text)
    → All IsName ns
    → length ns < fuel
    → same_volume_loop (k + fuel) source (below ns) ≡ same_volume_loop fuel source (below ns)
same_volume_loop-more zero fuel source ns h e =
    ap (λ n. same_volume_loop n source (below ns)) (omega arith)
same_volume_loop-more (suc k) fuel source ns h e =
    let sum : suc k + fuel ≡ suc (k + fuel) = omega arith in
    ap (λ n. same_volume_loop n source (below ns)) sum
    ∙ same_volume_loop-stable (k + fuel) source ns h (omega arith)
    ∙ same_volume_loop-more k fuel source ns h e

-- For a clean absolute path, the search for the effective path of the target of a move has rounds
-- enough: with any number of further rounds it makes the same calls and comes to the same results.
pub effective_path_for_comparison-rounds :
    (k : ℕ) (ns : List Text)
    → All IsName ns
    → effective_path_for_comparison (below ns)
      ≡ effective_loop (k + suc (length (split_slash (below ns)))) (below ns) []
unfolding effective_path_for_comparison
effective_path_for_comparison-rounds k ns h =
    let enough = length-split ns h in
    ap (λ p. effective_loop (suc (length (split_slash (below ns)))) p []) (clean-below ns h)
    ∙ sym (effective_loop-more k (suc (length (split_slash (below ns)))) ns [] h (omega arith))
