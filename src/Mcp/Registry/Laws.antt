-- ===== src/Mcp/Registry/Laws.antt =====
-- The registry of internal/mcp/tools: lookup, and its order of names.
use flashgate_mcp.Base.{
  Bool, true, false, Option, none, some, List, [], ◌∷◌, ◌++◌, ◌≡◌, ◌≢◌, refl, ap, arith, String,
  str_eq, eq_iff, eq_refl, if◌then◌else◌, All, All-append, Bool-cases, inl, inr, Option-cases,
  All-map, All-suffix, All-prefix, sym, ◌∙◌,
}
use flashgate_mcp.Mcp.Registry.{Registry, find, assign, new_registry, order_with, register, get}

abbrev pub Distinct : List String → Type 0
Distinct [] = Unit
Distinct (n ∷ ns) = All (λ k. k ≢ n) ns × Distinct ns

Distinct-snoc :
    (ns : List String) (name : String)
    → Distinct ns
    → All (λ k. k ≢ name) ns
    → Distinct (ns ++ name ∷ [])
Distinct-snoc [] name d a = (tt, tt)
Distinct-snoc (n ∷ ns) name d a =
    (All-append _ ns (name ∷ []) d.0 ((λ e. a.0 (sym e)), tt), Distinct-snoc ns name d.1 a.1)

found_either :
    {T : Type 0} (b : Bool) (t : T) (o : Option T) → o ≢ none → (if b then some t else o) ≢ none
found_either true t o h = cc
found_either false t o h = h

module _ {T : Type 0} where
  find-assign :
      (m : List (String × T)) (k j : String) (t : T)
      → find (assign m k t) j ≡ (if str_eq k j then some t else find m j)
  unfolding find assign
  find-assign [] k j t = refl
  find-assign ((i, s) ∷ m) k j t =
      ground (arith, eq_iff k j, eq_iff i k, eq_iff i j, find-assign m k j t)

  -- A registered tool is found under its name, and registering it changes what is found under no
  -- other name.
  pub get-register :
      (r : Registry T) (k j : String) (t : T)
      → get (register r k t) j ≡ (if str_eq k j then some t else get r j)
  unfolding get register
  get-register r k j t = find-assign r.tools k j t

  -- Every name of the order has a tool, no name stands twice in it, and every tool is in it.
  pub record IsConsistent (r : Registry T) : Type 0 where
    pub ordered : All (λ n. get r n ≢ none) r.order
    pub distinct : Distinct r.order
    pub complete : (n : String) → get r n ≢ none → ¬ All (λ k. k ≢ n) r.order

  pub new_registry-IsConsistent : IsConsistent new_registry
  unfolding new_registry get find
  new_registry-IsConsistent = record {
    ordered = tt;
    distinct = tt;
    complete = λ n h. absurd (h refl);
  }

  module _ (r : Registry T) (name : String) (tool : T) (h : IsConsistent r) where
    keeps_found : (n : String) → get r n ≢ none → get (register r name tool) n ≢ none
    keeps_found n e =
        rw (get-register r name n tool) (found_either (str_eq name n) tool (get r n) e)

    found_self : get (register r name tool) name ≢ none
    found_self = rw (get-register r name name tool, eq_refl name) (cc)

    found_before : (n : String) → name ≢ n → get (register r name tool) n ≢ none → get r n ≢ none
    found_before n e f g = f (get-register r name n tool ∙ ground (arith, eq_iff name n))

    found_known :
        (t : T)
        → get r name ≡ some t
        → (n : String) → get (register r name tool) n ≢ none
        → get r n ≢ none
    found_known t e n f g = elim (Bool-cases (str_eq name n)) [
      | inl b ↦ cc (ap (get r) ((eq_iff name n).0 b))
      | inr b ↦ f (get-register r name n tool ∙ rw b g)
    ]

    new_name :
        get r name ≡ none
        → register r name tool
          ≡ record { tools = assign r.tools name tool; order = r.order ++ name ∷ [] }
    unfolding register get order_with
    new_name e = rw e

    known_name :
        (t : T)
        → get r name ≡ some t
        → register r name tool ≡ record { tools = assign r.tools name tool; order = r.order }
    unfolding register get order_with
    known_name t e = rw e

    absent : get r name ≡ none → All (λ k. k ≢ name) r.order
    absent e = All-map _ _ r.order (λ k f p. f (ap (get r) p ∙ e)) h.ordered

    added : get r name ≡ none → IsConsistent (register r name tool)
    unfolding register get
    added e = record {
      ordered = rw (ap (λ (q : Registry T). q.order) (new_name e)) (
          All-append _ r.order (name ∷ []) (All-map _ _ r.order keeps_found h.ordered)
            (found_self, tt));
      distinct =
          rw (ap (λ (q : Registry T). q.order) (new_name e))
            (Distinct-snoc r.order name h.distinct (absent e));
      complete = λ n f. rw (ap (λ (q : Registry T). q.order) (new_name e)) (λ a.
          h.complete n (found_before n (All-suffix _ r.order (name ∷ []) a).0 f)
            (All-prefix _ r.order (name ∷ []) a));
    }

    replaced : (t : T) → get r name ≡ some t → IsConsistent (register r name tool)
    unfolding register get
    replaced t e = record {
      ordered =
          rw (ap (λ (q : Registry T). q.order) (known_name t e))
            (All-map _ _ r.order keeps_found h.ordered);
      distinct = rw (ap (λ (q : Registry T). q.order) (known_name t e)) h.distinct;
      complete = λ n f.
          rw (ap (λ (q : Registry T). q.order) (known_name t e))
            (h.complete n (found_known t e n f));
    }

    -- Registering a tool, new or known, keeps the registry consistent: every name of the order has
    -- a tool, no name stands twice in the order, and every tool has its name there.
    pub register-IsConsistent : IsConsistent (register r name tool)
    register-IsConsistent = elim (Option-cases (get r name)) [
      | inl e ↦ added e
      | inr (t, e) ↦ replaced t e
    ]
