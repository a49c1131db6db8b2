-- ===== src/Filepath/Relative.antt =====
-- Relative paths between paths below the root, and the test by which one leads out.
use flashgate_mcp.Base.{
  ◌≡◌, ◌≢◌, refl, true, false, List, [], ◌∷◌, ◌++◌, arith, All, Text, text_eq, has_prefix,
  text_eq_iff, replicate, some, length, ◌⊎◌, inl, inr, none,
}
use flashgate_mcp.Filepath.{
  up, IsName, join_slash, read_path, write_relative, rel, relate, written, rel_elements,
  strip_common, leads_up,
}
use flashgate_mcp.Filepath.Cleaning.{at}

pub leads_up-ups : (ps : List Text) → leads_up (write_relative (up ∷ ps)) ≡ true
unfolding leads_up write_relative join_slash text_eq has_prefix
leads_up-ups [] = refl
leads_up-ups (p ∷ ps) = refl

leads_up-behind : (p s : Text) → IsName p → leads_up (p ++ b'/' ∷ s) ≡ false
unfolding leads_up text_eq has_prefix
leads_up-behind [] s h = absurd (h.non_empty refl)
leads_up-behind (a ∷ []) s h = ground arith
leads_up-behind (a ∷ b ∷ []) s h = ground (arith, h.not_up)
leads_up-behind (a ∷ b ∷ c ∷ p) s h = ground (arith, h.no_slash)

leads_up-name : (p : Text) → IsName p → leads_up p ≡ false
unfolding leads_up has_prefix
leads_up-name [] h = absurd (h.non_empty refl)
leads_up-name (a ∷ []) h = ground (arith, h.not_up, text_eq_iff (a ∷ []) up)
leads_up-name (a ∷ b ∷ []) h = ground (arith, h.not_up, text_eq_iff (a ∷ b ∷ []) up)
leads_up-name (a ∷ b ∷ c ∷ p) h = ground (arith, h.no_slash, text_eq_iff (a ∷ b ∷ c ∷ p) up)

pub leads_up-names : (ns : List Text) → All IsName ns → leads_up (write_relative ns) ≡ false
unfolding write_relative join_slash
leads_up-names [] h = unfold leads_up text_eq has_prefix in refl
leads_up-names (p ∷ []) h = leads_up-name p h.0
leads_up-names (p ∷ q ∷ ns) h = leads_up-behind p (join_slash (q ∷ ns)) h.0

strip-below : (bs rest : List Text) → strip_common bs (bs ++ rest) ≡ ([], rest)
unfolding strip_common
strip-below [] rest = refl
strip-below (b ∷ bs) rest = ground (arith, text_eq_iff b b, strip-below bs rest)

-- Nothing is left of the base only where the target lies below it.
below_of_strip :
    (bs ts : List Text) → (strip_common bs ts).0 ≡ [] → ts ≡ bs ++ (strip_common bs ts).1
unfolding strip_common
below_of_strip [] ts e = refl
below_of_strip (b ∷ bs) [] e = cc
below_of_strip (b ∷ bs) (t ∷ ts) e = ground (arith, text_eq_iff b t, below_of_strip bs ts)

strip-names : (bs ts : List Text) → All IsName bs → All IsName (strip_common bs ts).0
unfolding strip_common
strip-names [] ts h = h
strip-names (b ∷ bs) [] h = h
strip-names (b ∷ bs) (t ∷ ts) h = ground (arith, strip-names bs ts h.1)

rel_elements-up :
    (r : List Text × List Text)
    → All IsName r.0
    → r.0 ≢ []
    → (ps : List Text) × (rel_elements r ≡ some (up ∷ ps))
unfolding rel_elements
rel_elements-up ([], ts) h n = absurd (n refl)
rel_elements-up (b ∷ bs, []) h n = (replicate (length bs) up, refl)
rel_elements-up (b ∷ bs, t ∷ ts) h n =
    (replicate (length bs) up ++ t ∷ ts, ground (arith, text_eq_iff b up, h.0.not_up))

nil-cases : (ps : List Text) → (ps ≡ []) ⊎ (ps ≢ [])
nil-cases [] = inl refl
nil-cases (p ∷ ps) = inr (cc)

module _ (base target : Text) (bs ts : List Text) (b : read_path base ≡ at true 0 bs)
    (t : read_path target ≡ at true 0 ts) where
  rel_lem : rel base target ≡ written (rel_elements (strip_common bs ts))
  unfolding rel relate
  rel_lem = rw (b, t)

  -- From a base to what lies below it.
  pub rel-below :
      (rest : List Text) → ts ≡ bs ++ rest → rel base target ≡ some (write_relative rest)
  rel-below rest e = rw (rel_lem, e, strip-below bs rest) (unfold written rel_elements in refl)

  -- From a base to what does not lie below it the path leads up.
  rel-up :
      All IsName bs
      → (strip_common bs ts).0 ≢ []
      → (ps : List Text) × (rel base target ≡ some (write_relative (up ∷ ps)))
  unfolding written
  rel-up h n =
      let (ps, e) = rel_elements-up (strip_common bs ts) (strip-names bs ts h) n in
      (ps, rw (rel_lem, e))

  -- The relative path is that of the elements below the base, or it leads up.
  pub rel-cases :
      All IsName bs
      → ((rest : List Text) × (ts ≡ bs ++ rest) × (rel base target ≡ some (write_relative rest)))
        ⊎ ((ps : List Text) × (rel base target ≡ some (write_relative (up ∷ ps))))
  rel-cases h = elim (nil-cases (strip_common bs ts).0) [
    | inl e ↦
        let below = below_of_strip bs ts e in
        inl ((strip_common bs ts).1, below, rel-below (strip_common bs ts).1 below)
    | inr n ↦ inr (rel-up h n)
  ]

-- A relative target has no path from an absolute base.
pub rel-mixed :
    (base target : Text)
    → (read_path base).rooted ≡ true
    → (read_path target).rooted ≡ false
    → rel base target ≡ none
unfolding rel relate written
rel-mixed base target b t = rw (b, t)
