-- ===== src/Prelude/Outcome.antt =====
-- A value or an error: Go's `(value, error)` where the value is not read beside an error.
use mathlib.Core.Path.{◌≡◌, refl}
use mathlib.Core.Logic.{◌⊎◌, inl, inr}
use mathlib.Core.Bool.{Bool, true, false}
use indexjack.Prelude.Tests.{if◌then◌else◌}

pub data Result {ℓ κ} (E : Type κ) (A : Type ℓ) : Type (ℓ ⊔ κ) where
  ok : A → Result E A
  err : E → Result E A

module _ {ℓ κ μ} {E : Type μ} {A : Type ℓ} {B : Type κ} where
  infixl 5 ◌>>=◌
  abbrev pub ◌>>=◌ : Result E A → (A → Result E B) → Result E B
  ok a >>= f = f a
  err e >>= f = err e

module _ {ℓ κ} {E : Type κ} {B : Type ℓ} where
  infixl 5 ◌>>◌
  abbrev pub ◌>>◌ : Result E (Unit {0}) → Result E B → Result E B
  m >> k = m >>= λ _. k

module _ {ℓ κ} {E : Type κ} {A : Type ℓ} where
  pub Result-cases : (r : Result E A) → ((a : A) × (r ≡ ok a)) ⊎ ((e : E) × (r ≡ err e))
  Result-cases (ok a) = inl (a, refl)
  Result-cases (err e) = inr (e, refl)

-- A chain that succeeded went through the value of its first step.
module _ {ℓ κ μ} {Failed : Type μ} {First : Type ℓ} {Last : Type κ} {z : Last} where
  pub >>=-eq-ok :
      (step : Result Failed First) (next : First → Result Failed Last)
      → ◌≡◌ {A = Result Failed Last} (step >>= next) (ok z)
      → (x : First) × (step ≡ ok x) × (next x ≡ ok z)
  >>=-eq-ok (err _) next passed = absurd cc
  >>=-eq-ok (ok x) next passed = (x, refl, passed)

module _ {κ μ} {Failed : Type μ} {Last : Type κ} {z : Last} where
  pub >>-eq-ok :
      (check : Result Failed (Unit {0})) (rest : Result Failed Last)
      → ◌≡◌ {A = Result Failed Last} (check >> rest) (ok z)
      → (check ≡ ok tt) × (rest ≡ ok z)
  >>-eq-ok (err _) rest passed = absurd cc
  >>-eq-ok (ok _) rest passed = (refl, passed)

-- Inversion of `if test { return err }`.
pub if-eq-ok {ℓ μ} :
    {E : Type μ} {B : Type ℓ} (test : Bool) (e : E) (r : Result E B) {b : B}
    → (if test then err e else r) ≡ ok b
    → (test ≡ false) × (r ≡ ok b)
if-eq-ok true e r h = cc
if-eq-ok false e r h = (refl, h)

pub ok-injective {ℓ μ} :
    {E : Type μ} {A : Type ℓ} {a b : A} → ◌≡◌ {A = Result E A} (ok a) (ok b) → a ≡ b
ok-injective h = cc
