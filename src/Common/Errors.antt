-- ===== src/Common/Errors.antt =====
-- The pair (value, error) that a Go function returns, where a non-nil error leaves no value in use.
use mathlib.Core.Path.{◌≡◌, refl}
use mathlib.Core.Logic.{◌⊎◌, inl, inr}
use mathlib.Core.Bool.{Bool, true, false}

pub data Result {ℓ κ} (E : Type ℓ) (A : Type κ) : Type (ℓ ⊔ κ) where
  ok : A → Result E A
  err : E → Result E A

module _ {ℓ} {E : Type ℓ} where
  infixl 5 ◌>>=◌ ◌>>◌
  abbrev pub ◌>>=◌ {κ μ} : {A : Type κ} {B : Type μ} → Result E A → (A → Result E B) → Result E B
  ok a >>= f = f a
  err e >>= f = err e

  abbrev pub ◌>>◌ {κ μ} : {A : Type κ} {B : Type μ} → Result E A → Result E B → Result E B
  m >> k = m >>= λ _. k

  -- One guard after another, where `◌>>◌` is another monad's.
  infixr 5 ◌and_then◌
  abbrev pub ◌and_then◌ : Result E (Unit {0}) → Result E (Unit {0}) → Result E (Unit {0})
  ok u and_then k = k
  err e and_then k = err e

  -- `if c { return e }`
  abbrev pub reject_if : Bool → E → Result E (Unit {0})
  reject_if true e = err e
  reject_if false e = ok tt

-- `fmt.Errorf("…: %w", err)`: the value is kept, the error is named anew.
abbrev pub map_err {ℓ κ μ} :
    {E : Type ℓ} {F : Type κ} {A : Type μ} → (E → F) → Result E A → Result F A
map_err f (ok a) = ok a
map_err f (err e) = err (f e)

pub Result-cases {ℓ κ} :
    {E : Type ℓ} {A : Type κ} (r : Result E A) → ((a : A) × (r ≡ ok a)) ⊎ ((e : E) × (r ≡ err e))
Result-cases (ok a) = inl (a, refl)
Result-cases (err e) = inr (e, refl)

-- A chain that returns a value has passed its first step.
pub chain-ok {ℓ κ μ} :
    {E : Type ℓ} {A : Type κ} {B : Type μ} (r : Result E A) (f : A → Result E B) {b : B}
    → (r >>= f) ≡ ok b
    → (a : A) × (r ≡ ok a) × (f a ≡ ok b)
chain-ok (ok a) f h = (a, refl, h)
chain-ok (err e) f h = absurd (cc)
