-- ===== src/Os/Rules.antt =====
-- Postconditions of trees of calls.
use flashgate_mcp.Base.{◌≡◌, refl, Bool, true, false, if◌then◌else◌, sym, ◌∙◌}
use flashgate_mcp.Errors.{Error, Answer, ok, err}
use flashgate_mcp.Os.{
  Call, Reply, Os, ret, call, and_then, on_ok, deferred, ◌>>=◌, return, fail, run,
}

-- Every call that `m` can make satisfies `P`, and every result `Q`, whatever the replies.
abbrev pub Holds : {A : Type 0} → (Call → Type 0) → (A → Type 0) → Os A → Type 0
Holds P Q (ret a) = Q a
Holds P Q (call c k) = P c × ((r : Reply c) → Holds P Q (k r))

-- Some replies lead to this result.
abbrev pub Gives : {A : Type 0} → Os A → A → Type 0
Gives (ret b) a = b ≡ a
Gives (call c k) a = (r : Reply c) × Gives (k r) a

Holds-Gives_for :
    {A : Type 0} (P : Call → Type 0) (Q R : A → Type 0) (m : Os A)
    → ((a : A) → Gives m a → R a)
    → Holds P Q m
    → Holds P (λ a. Q a × R a) m
Holds-Gives_for P Q R (ret a) g h = (h, g a refl)
Holds-Gives_for P Q R (call c k) g h =
    (h.0, λ r. Holds-Gives_for P Q R (k r) (λ a e. g a (r, e)) (h.1 r))

-- What holds of every result holds of it as one that some replies lead to.
pub Holds-Gives :
    {A : Type 0} (P : Call → Type 0) (Q : A → Type 0) (m : Os A)
    → Holds P Q m
    → Holds P (λ a. Q a × Gives m a) m
Holds-Gives P Q m = Holds-Gives_for P Q (Gives m) m (λ a e. e)

-- A postcondition on success only.
abbrev pub OnSuccess : {A : Type 0} → (A → Type 0) → Answer A → Type 0
OnSuccess Q (ok a) = Q a
OnSuccess Q (err e) = Unit

abbrev pub Anything : {A : Type 0} → A → Type 0
Anything a = Unit

-- Every call of `m` satisfies `P`, and what it returns without an error satisfies `Q`.
pub record Safe {A : Type 0} (P : Call → Type 0) (Q : A → Type 0) (m : Os (Answer A)) : Type 0 where
  pub holds : Holds P (OnSuccess Q) m

module _ {A : Type 0} {P : Call → Type 0} {Q : A → Type 0} where
  pub Safe-return : (a : A) → Q a → Safe P Q (return a)
  Safe-return a h = record { holds = h }

  pub Safe-fail : (e : Error) → Safe P Q (fail e)
  Safe-fail e = record { holds = tt }

  pub Safe-call :
      (c : Call) (k : Reply c → Os (Answer A))
      → P c
      → ((r : Reply c) → Safe P Q (k r))
      → Safe P Q (call c k)
  Safe-call c k p h = record { holds = (p, λ r. (h r).holds) }

  -- Either branch, each under what its test says.
  pub Safe-if :
      (b : Bool) (m n : Os (Answer A))
      → (b ≡ true → Safe P Q m)
      → (b ≡ false → Safe P Q n)
      → Safe P Q (if b then m else n)
  Safe-if true m n hm hn = hm refl
  Safe-if false m n hm hn = hn refl

module _ {A B : Type 0} (P : Call → Type 0) (R : A → Type 0) (Q : B → Type 0) where
  pub Holds-and_then :
      (m : Os A) (f : A → Os B)
      → Holds P R m
      → ((a : A) → R a → Holds P Q (f a))
      → Holds P Q (and_then m f)
  unfolding and_then
  Holds-and_then (ret a) f h k = k a h
  Holds-and_then (call c m) f h k = (h.0, λ r. Holds-and_then (m r) f (h.1 r) k)

module _ {A B : Type 0} (P : Call → Type 0) {R : A → Type 0} (Q : B → Type 0) where
  -- Calls, and what is made of their answer.
  pub Holds-answer :
      (m : Os (Answer A)) (g : Answer A → B)
      → Safe P R m
      → ((a : A) → R a → Q (g (ok a)))
      → ((e : Error) → Q (g (err e)))
      → Holds P Q (and_then m (λ r. ret (g r)))
  Holds-answer m g h k l =
      Holds-and_then P (OnSuccess R) Q m (λ r. ret (g r)) h.holds (either g k l)
    where
      either :
          (g : Answer A → B)
          → ((a : A) → R a → Q (g (ok a)))
          → ((e : Error) → Q (g (err e)))
          → (r : Answer A) → OnSuccess R r
          → Q (g r)
      either g k l (ok a) h = k a h
      either g k l (err e) h = l e

module _ {A : Type 0} (P : Call → Type 0) (Q : A → Type 0) where
  pub Holds-if :
      (b : Bool) (m n : Os A)
      → (b ≡ true → Holds P Q m)
      → (b ≡ false → Holds P Q n)
      → Holds P Q (if b then m else n)
  Holds-if true m n hm hn = hm refl
  Holds-if false m n hm hn = hn refl

module _ {A : Type 0} {P : Call → Type 0} where
  pub Safe-answer : (r : Answer A) → Safe P Anything (ret r)
  Safe-answer (ok a) = record { holds = tt }
  Safe-answer (err e) = record { holds = tt }

-- Fewer calls are allowed than are asked for.
pub Holds-weaken :
    {A : Type 0} (P P' : Call → Type 0) (Q : A → Type 0)
    → ((c : Call) → P c → P' c)
    → (m : Os A) → Holds P Q m
    → Holds P' Q m
Holds-weaken P P' Q f (ret a) h = h
Holds-weaken P P' Q f (call c k) h = (f c h.0, λ r. Holds-weaken P P' Q f (k r) (h.1 r))

pub Safe-weaken :
    {A : Type 0} {P P' : Call → Type 0} {Q : A → Type 0}
    → ((c : Call) → P c → P' c)
    → (m : Os (Answer A)) → Safe P Q m
    → Safe P' Q m
Safe-weaken {A} {P} {P'} {Q} f m h = record { holds = Holds-weaken P P' (OnSuccess Q) f m h.holds }

module _ {A B : Type 0} {P : Call → Type 0} {R : A → Type 0} {Q : B → Type 0} where
  -- A step whose error is looked at by what follows.
  pub Safe-attempt :
      (m : Os (Answer A)) (f : Answer A → Os (Answer B))
      → Safe P R m
      → ((a : A) → R a → Safe P Q (f (ok a)))
      → ((e : Error) → Safe P Q (f (err e)))
      → Safe P Q (and_then m f)
  Safe-attempt m f h k l = record {
    holds = Holds-and_then P (OnSuccess R) (OnSuccess Q) m f h.holds (either f k l);
  }
    where
      either :
          (f : Answer A → Os (Answer B))
          → ((a : A) → R a → Safe P Q (f (ok a)))
          → ((e : Error) → Safe P Q (f (err e)))
          → (r : Answer A) → OnSuccess R r
          → Holds P (OnSuccess Q) (f r)
      either f k l (ok a) h = (k a h).holds
      either f k l (err e) h = (l e).holds

  pub Safe-bind :
      (m : Os (Answer A)) (f : A → Os (Answer B))
      → Safe P R m
      → ((a : A) → R a → Safe P Q (f a))
      → Safe P Q (m >>= f)
  Safe-bind m f h k = Safe-attempt m (on_ok f) h k Safe-fail

module _ {A : Type 0} {P : Call → Type 0} {Q : A → Type 0} where
  -- A deferred call is one more call.
  pub Safe-deferred : (c : Call) (m : Os (Answer A)) → P c → Safe P Q m → Safe P Q (deferred c m)
  Safe-deferred c m p h =
      Safe-attempt m _ h (λ a q. Safe-call c _ p (λ _. Safe-return a q))
        (λ e. Safe-call c _ p (λ _. Safe-fail e))

pub run-and_then :
    {A B : Type 0} (h : (c : Call) → Reply c) (m : Os A) (f : A → Os B)
    → run h (and_then m f) ≡ run h (f (run h m))
unfolding run and_then
run-and_then h (ret a) f = refl
run-and_then h (call c k) f = run-and_then h (k (h c)) f

Holds-run :
    {A : Type 0} (P : Call → Type 0) (Q : A → Type 0) (h : (c : Call) → Reply c) (m : Os A)
    → Holds P Q m
    → Q (run h m)
unfolding run
Holds-run P Q h (ret a) e = e
Holds-run P Q h (call c k) e = Holds-run P Q h (k (h c)) (e.1 (h c))

-- What holds for all replies holds of each run.
pub Safe-run :
    {A : Type 0} (P : Call → Type 0) (Q : A → Type 0) (h : (c : Call) → Reply c) (m : Os (Answer A))
    → Safe P Q m
    → OnSuccess Q (run h m)
Safe-run P Q h m s = Holds-run P (OnSuccess Q) h m s.holds

-- A run that succeeds has succeeded with each of its steps.
pub run-bind_ok :
    {A B : Type 0} (h : (c : Call) → Reply c) (m : Os (Answer A)) (f : A → Os (Answer B)) (b : B)
    → run h (m >>= f) ≡ ok b
    → (a : A) × (run h m ≡ ok a) × (run h (f a) ≡ ok b)
unfolding run
run-bind_ok {A} {B} h m f b e = go (run h m) refl (sym (run-and_then h m (on_ok f)) ∙ e)
  where
    go :
        (r : Answer A)
        → run h m ≡ r
        → run h (on_ok f r) ≡ ok b
        → (a : A) × (run h m ≡ ok a) × (run h (f a) ≡ ok b)
    go (ok a) s t = (a, s, t)
    go (err e) s t = absurd (cc)

-- A run that succeeds has passed its guards.
pub run-guard_ok :
    {A : Type 0} (h : (c : Call) → Reply c) (b : Bool) (e : Error) (m : Os (Answer A)) (a : A)
    → run h (if b then fail e else m) ≡ ok a
    → (b ≡ false) × (run h m ≡ ok a)
unfolding run
run-guard_ok h true e m a r = absurd (cc)
run-guard_ok h false e m a r = (refl, r)
