-- ===== src/Security/Lexical.antt =====
-- resolveLexical of internal/security: the client paths that it accepts and refuses.
use flashgate_mcp.Base.{
  ℕ, zero, suc, ◌≡◌, ◌≢◌, refl, ap, sym, ◌∙◌, subst, Bool, true, false, not, ◌&&◌, List, [], ◌∷◌,
  ◌++◌, arith, All, All-append, Text, text_eq, text_eq_iff, ◌⊎◌, inl, inr, Bool-cases, replicate,
  is_blank,
}
use flashgate_mcp.Errors.{
  SecurityError, security, unc_path_denied, absolute_path, path_traversal, hidden_path_denied,
}
use flashgate_mcp.Os.{return, fail, and_then}
use flashgate_mcp.Filepath.{
  dot, up, Cleaned, IsName, read_path, write_relative, write_path, leads_up, is_abs, join_path,
  clean, join_slash, split_slash,
}
use flashgate_mcp.Filepath.Splitting.{split-join}
use flashgate_mcp.Filepath.Cleaning.{
  at, IsClean, read_path-IsClean, is_abs-relative, clean_loop-relative, read_path-write_path,
  NoSlash-names,
}
use flashgate_mcp.Filepath.Joining.{join_path_lem}
use flashgate_mcp.Filepath.Relative.{leads_up-ups, leads_up-names}
use flashgate_mcp.Security.{
  PathGuard, is_unc_path, normalize_user_path, is_traversal_path, is_hidden_name, any_hidden,
  has_hidden_path_component, is_inside_root, abs, resolve_lexical,
}
use flashgate_mcp.Security.Inside.{is_inside_root_iff}

-- The absolute path of some names below "/".
abbrev pub below : List Text → Text
below ns = write_path (at true 0 ns)

-- The root of a guard is a clean absolute path; these are its names.
pub record IsRooted (g : PathGuard) (bs : List Text) : Type 0 where
  pub proper : All IsName bs
  pub root_eq : g.root ≡ below bs

abbrev pub IsVisible : Text → Type 0
IsVisible p = is_hidden_name p ≡ false

-- A client path that the guard's policy lets through, and the names that it stands for.
pub record Accepts (g : PathGuard) (user_path : Text) (ns : List Text) : Type 0 where
  pub normal : normalize_user_path user_path ≡ write_relative ns
  pub proper : All IsName ns
  pub local : g.policy.allow_unc_paths ≡ false → is_unc_path (write_relative ns) ≡ false
  pub visible : g.policy.allow_hidden_files ≡ false → All IsVisible ns

-- What normalising leaves is a clean path.
normal_form : (u : Text) → (c : Cleaned) × IsClean c × (normalize_user_path u ≡ write_path c)
unfolding normalize_user_path
normal_form u = elim (Bool-cases (is_blank u)) [
  | inl e ↦ (
    at false 0 [],
    record { all_names = tt; at_root = λ _. refl },
    rw e (unfold write_path in refl),
  )
  | inr e ↦ (read_path u, read_path-IsClean u, rw e (unfold clean in refl))
]

pub is_abs-rooted : (u : ℕ) (ns : List Text) → is_abs (write_path (at true u ns)) ≡ true
unfolding is_abs write_path
is_abs-rooted u ns = refl

relative-names :
    (r : Bool) (u : ℕ) (ns : List Text)
    → is_abs (write_path (at r u ns)) ≡ false
    → leads_up (write_path (at r u ns)) ≡ false
    → write_path (at r u ns) ≡ write_relative ns
unfolding write_path
relative-names true u ns a l = cc (is_abs-rooted u ns)
relative-names false zero ns a l = refl
relative-names false (suc u) ns a l = cc (leads_up-ups (replicate u up ++ ns))

-- A clean path that is relative and does not lead up consists of names.
names_of_relative :
    (c : Cleaned)
    → is_abs (write_path c) ≡ false
    → leads_up (write_path c) ≡ false
    → write_path c ≡ write_relative c.names
names_of_relative c a l = relative-names c.rooted c.ups c.names a l

any_hidden-IsVisible : (ps : List Text) → any_hidden ps ≡ false → All IsVisible ps
unfolding any_hidden
any_hidden-IsVisible [] h = tt
any_hidden-IsVisible (p ∷ ps) h = (ground arith, any_hidden-IsVisible ps (ground arith))

visible-any_hidden : (ps : List Text) → All IsVisible ps → any_hidden ps ≡ false
unfolding any_hidden
visible-any_hidden [] h = refl
visible-any_hidden (p ∷ ps) h = ground (arith, h.0, visible-any_hidden ps h.1)

first : List Text → Text
first [] = []
first (p ∷ ps) = p

join-ne-dot : (p : Text) (ns : List Text) → All IsName (p ∷ ns) → join_slash (p ∷ ns) ≢ dot
unfolding first split_slash
join-ne-dot p ns h e =
    h.0.not_dot (ap first (sym (split-join p ns (NoSlash-names (p ∷ ns) h)) ∙ ap split_slash e))

pub write_relative-ne-dot :
    (p : Text) (ns : List Text)
    → All IsName (p ∷ ns)
    → text_eq (write_relative (p ∷ ns)) dot ≡ false
unfolding write_relative
write_relative-ne-dot p ns h =
    ground (arith, text_eq_iff (join_slash (p ∷ ns)) dot, join-ne-dot p ns h)

has_hidden-names :
    (ns : List Text) → All IsName ns → has_hidden_path_component (write_relative ns) ≡ any_hidden ns
unfolding has_hidden_path_component
has_hidden-names [] h = unfold write_relative any_hidden text_eq in refl
has_hidden-names (p ∷ ns) h =
    rw (write_relative-ne-dot p ns h)
      (unfold write_relative in ap any_hidden (split-join p ns (NoSlash-names (p ∷ ns) h)))

join-ne-nil : (p : Text) (ns : List Text) → p ≢ [] → join_slash (p ∷ ns) ≢ []
unfolding join_slash
join-ne-nil [] ns n = absurd (n refl)
join-ne-nil (c ∷ p) [] n = cc
join-ne-nil (c ∷ p) (q ∷ ns) n = cc

write_relative-ne-nil : (ns : List Text) → All IsName ns → write_relative ns ≢ []
unfolding write_relative
write_relative-ne-nil [] h = cc
write_relative-ne-nil (p ∷ ns) h = join-ne-nil p ns h.0.non_empty

pub below-ne-nil : (bs : List Text) → below bs ≢ []
unfolding write_path
below-ne-nil bs = cc

pub read_path-below : (ns : List Text) → All IsName ns → read_path (below ns) ≡ at true 0 ns
read_path-below ns h =
    read_path-write_path (at true 0 ns) (record { all_names = h; at_root = λ _. refl })

-- Names are joined behind the names of the root.
pub join_path-below :
    (bs ns : List Text)
    → All IsName bs
    → All IsName ns
    → join_path (below bs) (write_relative ns) ≡ below (bs ++ ns)
join_path-below bs ns hb hn =
    rw
      (join_path_lem (below bs) (write_relative ns) (below-ne-nil bs) (write_relative-ne-nil ns hn))
      (rw (read_path-below bs hb) (ap write_path (clean_loop-relative (at true 0 bs) ns hn)))

pub is_inside-below :
    (bs ns : List Text)
    → All IsName bs
    → All IsName ns
    → is_inside_root (below bs) (below (bs ++ ns)) ≡ true
is_inside-below bs ns hb hn =
    (is_inside_root_iff (below bs) (below (bs ++ ns)) bs (bs ++ ns) (read_path-below bs hb)
        (read_path-below (bs ++ ns) (All-append IsName bs ns hb hn)) hb
        (All-append IsName bs ns hb hn)).1
      (ns, refl)

abs-below : (ns : List Text) → All IsName ns → abs (below ns) ≡ return (below ns)
unfolding abs clean
abs-below ns h = rw (is_abs-rooted 0 ns, read_path-below ns h)

forbidden_passes : (allowed b : Bool) → (allowed ≡ false → b ≡ false) → (not allowed && b) ≡ false
forbidden_passes true b h = refl
forbidden_passes false b h = h refl

forbidden_refuses : (allowed b : Bool) → (not allowed && b) ≡ false → allowed ≡ false → b ≡ false
forbidden_refuses allowed b h e = ground arith

module _ (g : PathGuard) (bs : List Text) (hg : IsRooted g bs) (u : Text) where
  -- For a guard whose root is clean and absolute, a client path that the policy accepts, which
  -- stands for names, is resolved to these names below the root, with no call of the system.
  pub resolve_lexical-Accepts :
      (ns : List Text) → Accepts g u ns → resolve_lexical g u ≡ return (below (bs ++ ns))
  unfolding resolve_lexical is_traversal_path and_then
  resolve_lexical-Accepts ns a = rw (
    a.normal,
    forbidden_passes _ _ a.local,
    is_abs-relative 0 ns a.proper,
    leads_up-names ns a.proper,
    has_hidden-names ns a.proper,
    forbidden_passes g.policy.allow_hidden_files (any_hidden ns)
        (λ e. visible-any_hidden ns (a.visible e)),
    hg.root_eq,
    join_path-below bs ns hg.proper a.proper,
    abs-below (bs ++ ns) (All-append IsName bs ns hg.proper a.proper),
    is_inside-below bs ns hg.proper a.proper,
  )

  abbrev pub Refused : Type 0
  Refused = (e : SecurityError) × (resolve_lexical g u ≡ fail (security e))

  visible_names :
      (c : Cleaned)
      → IsClean c
      → normalize_user_path u ≡ write_path c
      → (not g.policy.allow_unc_paths && is_unc_path (normalize_user_path u)) ≡ false
      → is_abs (normalize_user_path u) ≡ false
      → leads_up (normalize_user_path u) ≡ false
      → (not g.policy.allow_hidden_files && has_hidden_path_component (normalize_user_path u))
        ≡ false
      → Accepts g u c.names
  visible_names c hc n unc absolute traversal hidden =
      let named =
        n
        ∙ names_of_relative c (subst (λ t. is_abs t ≡ false) n absolute)
            (subst (λ t. leads_up t ≡ false) n traversal) in
      record {
        normal = named;
        proper = hc.all_names;
        local = λ e. subst (λ t. is_unc_path t ≡ false) named (forbidden_refuses _ _ unc e);
        visible = λ e. any_hidden-IsVisible c.names (
            sym (has_hidden-names c.names hc.all_names)
            ∙ subst (λ t. has_hidden_path_component t ≡ false) named
                (forbidden_refuses _ _ hidden e));
      }

  -- For a guard whose root is clean and absolute, every client path is either one that the policy
  -- accepts, for some names, or refused with an error of the guard, with no call of the system.
  pub resolve_lexical-cases : ((ns : List Text) × Accepts g u ns) ⊎ Refused
  unfolding resolve_lexical is_traversal_path
  resolve_lexical-cases =
      elim (Bool-cases (not g.policy.allow_unc_paths && is_unc_path (normalize_user_path u))) [
        | inl e ↦ inr (unc_path_denied, rw e)
        | inr unc ↦ elim (Bool-cases (is_abs (normalize_user_path u))) [
          | inl e ↦ inr (absolute_path, rw (unc, e))
          | inr absolute ↦ elim (Bool-cases (leads_up (normalize_user_path u))) [
            | inl e ↦ inr (path_traversal, rw (unc, absolute, e))
            | inr traversal ↦
                elim (Bool-cases (
                  not g.policy.allow_hidden_files
                  && has_hidden_path_component (normalize_user_path u))) [
                    | inl e ↦ inr (hidden_path_denied, rw (unc, absolute, traversal, e))
                    | inr hidden ↦
                        let (c, hc, n) = normal_form u in
                        inl (c.names, visible_names c hc n unc absolute traversal hidden)
                  ]
          ]
        ]
      ]
