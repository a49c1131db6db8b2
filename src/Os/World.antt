-- ===== src/Os/World.antt =====
-- A run against a system whose state changes, with the calls that were made.
use flashgate_mcp.Base.{
  ◌≡◌, refl, ap, sym, ◌∙◌, Bool, true, false, List, [], ◌∷◌, ◌++◌, All, All-append, append_assoc,
  if◌then◌else◌,
}
use flashgate_mcp.Errors.{Error, Answer, ok, err}
use flashgate_mcp.Os.{Call, Reply, Os, ret, call, and_then, on_ok, ◌>>=◌, fail}
use flashgate_mcp.Os.Rules.{Holds}

-- `trace` has the calls that were made, the first in front.
pub record World (S : Type 0) : Type 0 where
  pub state : S
  pub trace : List Call

module _ {S : Type 0} (reply : (c : Call) → S → Reply c × S) where
  -- One call, by the system.
  abbrev pub ask : (c : Call) → World S → World S
  ask c w = record { state = (reply c w.state).1; trace = w.trace ++ c ∷ [] }

  unfoldable pub drive : {A : Type 0} → Os A → World S → A × World S
  drive (ret a) w = (a, w)
  drive (call c k) w = drive (k (reply c w.state).0) (ask c w)

  -- What holds of every call of a tree holds of the calls that a run adds to the trace.
  pub drive-Holds :
      {A : Type 0} (P : Call → Type 0) (Q : A → Type 0) (m : Os A) (w : World S)
      → Holds P Q m
      → All P w.trace
      → All P (drive m w).1.trace × Q (drive m w).0
  unfolding drive
  drive-Holds P Q (ret a) w h t = (t, h)
  drive-Holds P Q (call c k) w h t =
      drive-Holds P Q (k (reply c w.state).0) (ask c w) (h.1 (reply c w.state).0)
        (All-append P w.trace (c ∷ []) t (h.0, tt))

  pub drive-and_then :
      {A B : Type 0} (m : Os A) (f : A → Os B) (w : World S)
      → drive (and_then m f) w ≡ drive (f (drive m w).0) (drive m w).1
  unfolding drive and_then
  drive-and_then (ret a) f w = refl
  drive-and_then (call c k) f w = drive-and_then (k (reply c w.state).0) f (ask c w)

  -- A run that succeeds has succeeded with each of its steps.
  pub drive-bind_ok :
      {A B : Type 0} (m : Os (Answer A)) (f : A → Os (Answer B)) (w : World S) (b : B)
      → (drive (m >>= f) w).0 ≡ ok b
      → (a : A) × ((drive m w).0 ≡ ok a) × ((drive (f a) (drive m w).1).0 ≡ ok b)
  unfolding drive
  drive-bind_ok {A} {B} m f w b e =
      go (drive m w).0 refl
        (sym (ap (λ (p : Answer B × World S). p.0) (drive-and_then m (on_ok f) w)) ∙ e)
    where
      go :
          (r : Answer A)
          → (drive m w).0 ≡ r
          → (drive (on_ok f r) (drive m w).1).0 ≡ ok b
          → (a : A) × ((drive m w).0 ≡ ok a) × ((drive (f a) (drive m w).1).0 ≡ ok b)
      go (ok a) s t = (a, s, t)
      go (err e) s t = absurd (cc)

  -- A run that succeeds has passed its guards.
  pub drive-guard_ok :
      {A : Type 0} (b : Bool) (e : Error) (m : Os (Answer A)) (w : World S) (a : A)
      → (drive (if b then fail e else m) w).0 ≡ ok a
      → (b ≡ false) × ((drive m w).0 ≡ ok a)
  unfolding drive
  drive-guard_ok true e m w a r = absurd (cc)
  drive-guard_ok false e m w a r = (refl, r)

  -- The trace goes on with calls that satisfy `P`.
  abbrev pub Extends : (Call → Type 0) → List Call → World S → Type 0
  Extends P base w = (cs : List Call) × (w.trace ≡ base ++ cs) × All P cs

  pub drive-Extends :
      {A : Type 0} (P : Call → Type 0) (Q : A → Type 0) (base : List Call) (m : Os A) (w : World S)
      → Holds P Q m
      → Extends P base w
      → Extends P base (drive m w).1
  unfolding drive
  drive-Extends P Q base (ret a) w h t = t
  drive-Extends P Q base (call c k) w h (cs, same, all) =
      drive-Extends P Q base (k (reply c w.state).0) (ask c w) (h.1 (reply c w.state).0) (
        cs ++ c ∷ [],
        ap (λ t. t ++ c ∷ []) same ∙ append_assoc base cs (c ∷ []),
        All-append P cs (c ∷ []) all (h.0, tt),
      )
