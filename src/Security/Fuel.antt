-- ===== src/Security/Fuel.antt =====
-- resolveExistingParent of internal/security: the rounds of its loop.
use flashgate_mcp.Base.{
  ℕ, zero, suc, ◌+◌, ◌<◌, ◌≡◌, refl, ap, sym, ◌∙◌, List, [], ◌∷◌, length, arith, All, All-drop_last,
  Text, text_eq_iff, drop_last,
}
use flashgate_mcp.Filepath.{IsName, clean, split_slash, join_slash, write_path}
use flashgate_mcp.Filepath.Splitting.{split-join}
use flashgate_mcp.Filepath.Cleaning.{NoSlash-names}
use flashgate_mcp.Filepath.Joining.{dir-names}
use flashgate_mcp.Security.{PathGuard, existing_parent_loop, resolve_existing_parent}
use flashgate_mcp.Security.Lexical.{below, read_path-below}

pub length-drop_last :
    (p : Text) (ns : List Text) → suc (length (drop_last (p ∷ ns))) ≡ length (p ∷ ns)
length-drop_last p [] = refl
length-drop_last p (q ∷ ns) = ap suc (length-drop_last q ns)

-- One round more than is needed changes nothing.
existing_parent_loop-stable :
    (g : PathGuard) (fuel : ℕ) (ns : List Text)
    → All IsName ns
    → length ns < fuel
    → existing_parent_loop g (suc fuel) (below ns) ≡ existing_parent_loop g fuel (below ns)
unfolding existing_parent_loop
existing_parent_loop-stable g zero ns h e = absurd (omega arith)
existing_parent_loop-stable g (suc fuel) [] h e =
    rw (dir-names [] h, (text_eq_iff (below []) (below [])).1 refl) refl
existing_parent_loop-stable g (suc fuel) (p ∷ ns) h e =
    let ih =
      existing_parent_loop-stable g fuel (drop_last (p ∷ ns)) (All-drop_last IsName (p ∷ ns) h)
        (omega (arith, length-drop_last p ns)) in
    rw (dir-names (p ∷ ns) h) (rw ih refl)

pub length-split : (ns : List Text) → All IsName ns → length ns < length (split_slash (below ns))
unfolding write_path split_slash join_slash
length-split [] h = omega arith
length-split (p ∷ ns) h = rw (split-join p ns (NoSlash-names (p ∷ ns) h)) (omega arith)

existing_parent_loop-more :
    (g : PathGuard) (k fuel : ℕ) (ns : List Text)
    → All IsName ns
    → length ns < fuel
    → existing_parent_loop g (k + fuel) (below ns) ≡ existing_parent_loop g fuel (below ns)
existing_parent_loop-more g zero fuel ns h e =
    ap (λ n. existing_parent_loop g n (below ns)) (omega arith)
existing_parent_loop-more g (suc k) fuel ns h e =
    let sum : suc k + fuel ≡ suc (k + fuel) = omega arith in
    ap (λ n. existing_parent_loop g n (below ns)) sum
    ∙ existing_parent_loop-stable g (k + fuel) ns h (omega arith)
    ∙ existing_parent_loop-more g k fuel ns h e

pub clean-below : (ns : List Text) → All IsName ns → clean (below ns) ≡ below ns
unfolding clean
clean-below ns h = ap write_path (read_path-below ns h)

-- For a clean absolute path, the search for an existing parent has rounds enough: with any number
-- of further rounds it makes the same calls and comes to the same results.
pub resolve_existing_parent-rounds :
    (g : PathGuard) (k : ℕ) (ns : List Text)
    → All IsName ns
    → resolve_existing_parent g (below ns)
      ≡ existing_parent_loop g (k + length (split_slash (below ns))) (below ns)
unfolding resolve_existing_parent
resolve_existing_parent-rounds g k ns h =
    ap (existing_parent_loop g (length (split_slash (below ns)))) (clean-below ns h)
    ∙ sym (existing_parent_loop-more g k (length (split_slash (below ns))) ns h (length-split ns h))
