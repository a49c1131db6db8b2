-- ===== src/Version/SemVer/Form.antt =====
-- parseSemVer of internal/version/version.go: the form of the versions that it accepts.
use flashgate_mcp.Base.{
  ℕ, ◌<◌, ◌^◌, ◌≡◌, refl, sym, ap, ◌∙◌, inl, inr, Bool, true, false, Bool-cases, Option, none, some,
  List, [], ◌∷◌, ◌++◌, ◌==◌, ==_iff, Text, text_eq, trim, not, ◌||◌, arith, if◌then◌else◌, subst,
}
use flashgate_mcp.Base.Result.{Result, ok, err, >>=-eq-ok}
use flashgate_mcp.Version.SemVer.{
  push, split_dot, cut, numeral, valid_core_number, core_number, parse_core, parse_release,
  parse_cut, parse_sem_ver, SemVerError, invalid_version, bad_prerelease, bad_build,
}

-- What was cut, put together again.
abbrev pub rejoin : ℕ → Text × Option Text → Text
rejoin sep (a, none) = a
rejoin sep (a, some b) = a ++ sep ∷ b

rejoin-front :
    (sep c : ℕ) (a : Text) (o : Option Text) → rejoin sep (c ∷ a, o) ≡ c ∷ rejoin sep (a, o)
rejoin-front sep c a none = refl
rejoin-front sep c a (some b) = refl

cut-rejoin : (sep : ℕ) (s : Text) → rejoin sep (cut sep s) ≡ s
unfolding cut
cut-rejoin sep [] = refl
cut-rejoin sep (c ∷ s) = elim (Bool-cases (c == sep)) [
  | inl e ↦ rw e (ap (λ d. d ∷ s) (sym ((==_iff c sep).0 e)))
  | inr e ↦
      rw e (rejoin-front sep c (cut sep s).0 (cut sep s).1 ∙ ap (λ t. c ∷ t) (cut-rejoin sep s))
]

abbrev join_dot : List Text → Text
join_dot [] = []
join_dot (p ∷ []) = p
join_dot (p ∷ q ∷ ps) = p ++ b'.' ∷ join_dot (q ∷ ps)

push-join : (c : ℕ) (ps : List Text) → join_dot (push c ps) ≡ c ∷ join_dot ps
unfolding push
push-join c [] = refl
push-join c (p ∷ []) = refl
push-join c (p ∷ q ∷ ps) = refl

push-front : (c : ℕ) (ps : List Text) → join_dot ([] ∷ push c ps) ≡ b'.' ∷ join_dot (push c ps)
unfolding push
push-front c [] = refl
push-front c (p ∷ ps) = refl

split_dot-front : (s : Text) → join_dot ([] ∷ split_dot s) ≡ b'.' ∷ join_dot (split_dot s)
unfolding split_dot
split_dot-front [] = refl
split_dot-front (c ∷ s) = elim (Bool-cases (c == b'.')) [
  | inl e ↦ rw e refl
  | inr e ↦ rw e (push-front c (split_dot s))
]

split_dot-join : (s : Text) → join_dot (split_dot s) ≡ s
unfolding split_dot
split_dot-join [] = refl
split_dot-join (c ∷ s) = elim (Bool-cases (c == b'.')) [
  | inl e ↦ rw e (
      split_dot-front s
      ∙ ap (λ t. b'.' ∷ t) (split_dot-join s)
      ∙ ap (λ d. d ∷ s) (sym ((==_iff c b'.').0 e)))
  | inr e ↦ rw e (push-join c (split_dot s) ∙ ap (λ t. c ∷ t) (split_dot-join s))
]

-- A part of the core, and the number that it is.
pub record IsCore (p : Text) (n : ℕ) : Type 0 where
  pub valid : valid_core_number p ≡ true
  pub value : numeral 0 p ≡ n
  pub fits : n < 2 ^ 16

core_number-IsCore : (p : Text) (n : ℕ) → core_number p ≡ ok n → IsCore p n
unfolding core_number
core_number-IsCore p n h = record {
  valid = ground (arith, h);
  value = ground (arith, h);
  fits = ground (arith, h);
}

abbrev accepted : ℕ × ℕ × ℕ → Result SemVerError (ℕ × ℕ × ℕ)
accepted m = ok m

ok-injective : (m n : ℕ × ℕ × ℕ) → accepted m ≡ accepted n → m ≡ n
ok-injective m n h = cc

-- A test that is passed.
passed :
    (b : Bool) (m : Result SemVerError (ℕ × ℕ × ℕ)) (n : ℕ × ℕ × ℕ)
    → (if b then err invalid_version else m) ≡ ok n
    → m ≡ ok n
passed true m n h = absurd (cc)
passed false m n h = h

-- Three parts, and the numbers that they are.
abbrev pub AreCore : List Text → ℕ × ℕ × ℕ → Type 0
AreCore (p ∷ q ∷ r ∷ []) (x, y, z) = IsCore p x × IsCore q y × IsCore r z
AreCore _ n = ⊥

parse_core-AreCore : (ps : List Text) (n : ℕ × ℕ × ℕ) → parse_core ps ≡ ok n → AreCore ps n
unfolding parse_core
parse_core-AreCore (p ∷ q ∷ r ∷ []) n h =
    let (x, hx, h1) = >>=-eq-ok (core_number p) _ h in
    let (y, hy, h2) = >>=-eq-ok (core_number q) _ h1 in
    let (z, hz, h3) = >>=-eq-ok (core_number r) _ h2 in
    subst (AreCore (p ∷ q ∷ r ∷ [])) (ok-injective (x, y, z) n h3)
      (core_number-IsCore p x hx, core_number-IsCore q y hy, core_number-IsCore r z hz)
parse_core-AreCore [] n h = absurd (cc)
parse_core-AreCore (p ∷ []) n h = absurd (cc)
parse_core-AreCore (p ∷ q ∷ []) n h = absurd (cc)
parse_core-AreCore (p ∷ q ∷ r ∷ s ∷ ps) n h = absurd (cc)

-- The parts of a version: three numbers, the pre-release and the build, if they are given.
pub record HasForm (value : Text) (n : ℕ × ℕ × ℕ) : Type 0 where
  pub parts : List Text
  pub prerelease : Option Text
  pub build : Option Text
  pub numbers : AreCore parts n
  pub form : value ≡ rejoin b'+' (rejoin b'-' (join_dot parts, prerelease), build)

parse_release-core :
    (core : Text) (pre : Option Text) (n : ℕ × ℕ × ℕ)
    → parse_release (core, pre) ≡ ok n
    → AreCore (split_dot core) n
unfolding parse_release
parse_release-core core pre n h =
    parse_core-AreCore (split_dot core) n (passed (bad_prerelease pre) _ n h)

parse_cut-release :
    (x : Text × Option Text) (n : ℕ × ℕ × ℕ)
    → parse_cut x ≡ ok n
    → parse_release (cut b'-' x.0) ≡ ok n
unfolding parse_cut
parse_cut-release (w, o) n h = passed (bad_build o) _ n h

-- A version that parseSemVer accepts is three numbers with dots between them, then the pre-release
-- behind a minus sign and the build behind a plus sign, if they are given; and each number that is
-- returned is the value of a valid core number and fits 16 bits.
pub parse_sem_ver-HasForm :
    (value : Text) (n : ℕ × ℕ × ℕ) → parse_sem_ver value ≡ ok n → HasForm value n
unfolding parse_sem_ver
parse_sem_ver-HasForm value n h =
    let (w, build) = cut b'+' value in
    let (core, pre) = cut b'-' w in
    let released =
      parse_cut-release (cut b'+' value) n
        (passed (not (text_eq (trim value) value) || text_eq value []) _ n h) in
    record {
      parts = split_dot core;
      prerelease = pre;
      build = build;
      numbers = parse_release-core core pre n released;
      form =
          sym (cut-rejoin b'+' value)
          ∙ ap (λ t. rejoin b'+' (t, build))
              (sym (cut-rejoin b'-' w)
                ∙ ap (λ t. rejoin b'-' (t, pre)) (sym (split_dot-join core)));
    }
