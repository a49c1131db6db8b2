-- ===== src/Base/Result.antt =====
-- A Go call that returns a value and an error.
use mathlib.Core.Path.{◌≡◌, refl}

pub data Result {ℓ κ} (E : Type κ) (A : Type ℓ) : Type (ℓ ⊔ κ) where
  err : E → Result E A
  ok : A → Result E A

infixl 5 ◌>>=◌ ◌>>◌
-- `if err != nil { return err }`
abbrev pub ◌>>=◌ {ℓ κ} :
    {Failure : Type κ} {A B : Type ℓ} → Result Failure A → (A → Result Failure B) → Result Failure B
r >>= next = elim r [ err failure ↦ err failure | ok value ↦ next value ]

-- What a successful chain went through.
pub >>=-eq-ok {ℓ κ} :
    {Failure : Type κ} {A B : Type ℓ} (r : Result Failure A) (next : A → Result Failure B) {b : B}
    → (r >>= next) ≡ ok b
    → (a : A) × (r ≡ ok a) × (next a ≡ ok b)
>>=-eq-ok (err failure) next h = cc
>>=-eq-ok (ok value) next h = (value, refl, h)

-- The same where the value says nothing.
abbrev pub ◌>>◌ {κ} :
    {Failure : Type κ} {B : Type 0}
    → Result Failure (Unit {0})
    → Result Failure B
    → Result Failure B
first >> second = elim first [ err failure ↦ err failure | ok _ ↦ second ]
