-- ===== src/Mcp/Registry/Every.antt =====
-- Tables by name of internal/mcp/tools and internal/mcp/router: what holds of every entry.
use flashgate_mcp.Base.{
  ◌≡◌, subst, inl, inr, Bool, true, false, Bool-cases, some, List, [], ◌∷◌, String, All,
  if◌then◌else◌, str_eq, arith,
}
use flashgate_mcp.Mcp.Registry.{find, assign}

module _ {T : Type 0} (Q : T → Type 0) where
  abbrev pub Every : List (String × T) → Type 0
  Every m = All (λ (p : String × T). Q p.1) m

  pub find-Every :
      (m : List (String × T)) (name : String) (t : T) → Every m → find m name ≡ some t → Q t
  unfolding find
  find-Every [] name t h e = absurd (cc)
  find-Every ((k, s) ∷ m) name t h e = elim (Bool-cases (str_eq k name)) [
    | inl a ↦ subst Q (ground arith) h.0
    | inr a ↦ find-Every m name t h.1 (ground arith)
  ]

  pub assign-Every :
      (m : List (String × T)) (name : String) (t : T) → Every m → Q t → Every (assign m name t)
  unfolding assign
  assign-Every [] name t h q = (q, tt)
  assign-Every ((k, s) ∷ m) name t h q = by_name (str_eq k name) (assign-Every m name t h.1 q)
    where
      by_name :
          (b : Bool)
          → Every (assign m name t)
          → Every (if b then (name, t) ∷ m else (k, s) ∷ assign m name t)
      by_name true rest = (q, h.1)
      by_name false rest = (h.0, rest)
