-- ===== src/Security/Inside.antt =====
-- isInsideRoot of internal/security: the test by `filepath.Rel`.
use flashgate_mcp.Base.{
  ◌≡◌, ◌↔◌, refl, ap, ◌∙◌, true, false, List, ◌∷◌, ◌++◌, arith, some, All, Text, text_eq_iff, inl,
  inr, All-suffix, subst,
}
use flashgate_mcp.Filepath.{dot, up, IsName, read_path, write_relative, leads_up}
use flashgate_mcp.Filepath.Cleaning.{at}
use flashgate_mcp.Filepath.Relative.{rel-cases, leads_up-ups, leads_up-names, rel-below}
use flashgate_mcp.Security.{stays_inside, is_inside_root}

stays-names : (ns : List Text) → All IsName ns → stays_inside (some (write_relative ns)) ≡ true
unfolding stays_inside
stays-names ns h = ground (arith, leads_up-names ns h)

leads_up-dot : leads_up dot ≡ false
unfolding leads_up
leads_up-dot = refl

stays-ups : (ps : List Text) → stays_inside (some (write_relative (up ∷ ps))) ≡ false
unfolding stays_inside
stays-ups ps =
    ground (arith, leads_up-ups ps, text_eq_iff (write_relative (up ∷ ps)) dot, leads_up-dot)

module _ (root path : Text) (bs ts : List Text) (b : read_path root ≡ at true 0 bs)
    (t : read_path path ≡ at true 0 ts) (hb : All IsName bs) (ht : All IsName ts) where
  -- Of two clean absolute paths, the test by filepath.Rel accepts the second below the first
  -- exactly if the names of the first are the first names of the second.
  pub is_inside_root_iff :
      (is_inside_root root path ≡ true) ↔ ((rest : List Text) × (ts ≡ bs ++ rest))
  unfolding is_inside_root
  is_inside_root_iff = (
    (λ h. elim (rel-cases root path bs ts b t hb) [
      | inl (rest, e, _) ↦ (rest, e)
      | inr (ps, e) ↦ cc (ap stays_inside e, h, stays-ups ps)
    ]),
    (λ (rest, e).
        ap stays_inside (rel-below root path bs ts b t rest e)
        ∙ stays-names rest (All-suffix IsName bs rest (subst (All IsName) e ht))),
  )
