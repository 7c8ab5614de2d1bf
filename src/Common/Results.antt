-- ===== src/Common/Results.antt =====
-- Functions that may throw: a value, or the exception with its message.
use Prim.Native.String.{String}
use mathlib.Core.Path.{◌≡◌, refl}
use mathlib.Core.Logic.{◌⊎◌, inl, inr}
use mathlib.Core.Bool.{Bool, true, false}

pub data Thrown : Type 0 where
  type_error range_error plain_error : String → Thrown

pub data Result {ℓ} (A : Type ℓ) : Type ℓ where
  ok : A → Result A
  throw : Thrown → Result A

module _ {ℓ κ} {A : Type ℓ} {B : Type κ} where
  infixl 5 ◌>>=◌
  -- What follows a call runs on its value.
  abbrev pub ◌>>=◌ : Result A → (A → Result B) → Result B
  throw exception >>= k = throw exception
  ok value >>= k = k value

  -- A block that returns has passed its first step.
  pub bind-eq-ok :
      (first : Result A) (k : A → Result B) {last : B}
      → (first >>= k) ≡ ok last
      → (value : A) × (first ≡ ok value) × (k value ≡ ok last)
  bind-eq-ok (throw exception) k e = cc
  bind-eq-ok (ok value) k e = (value, refl, e)

infixl 5 ◌>>◌
-- A step whose value is not used.
abbrev pub ◌>>◌ {κ} : {B : Type κ} → Result (Unit {0}) → Result B → Result B
throw exception >> rest = throw exception
ok done >> rest = rest

-- `if (!test) throw exception`.
abbrev pub require : Bool → Thrown → Result (Unit {0})
require false exception = throw exception
require true exception = ok tt

-- A block that returns has passed its guard.
pub require-eq-ok {κ} :
    {B : Type κ} (test : Bool) (exception : Thrown) (rest : Result B) {last : B}
    → (require test exception >> rest) ≡ ok last
    → (test ≡ true) × (rest ≡ ok last)
require-eq-ok true exception rest e = (refl, e)
require-eq-ok false exception rest e = cc

module _ {ℓ} {A : Type ℓ} where
  pub ok-injective : {a b : A} → ok a ≡ ok b → a ≡ b
  ok-injective e = cc

  -- To split on a result and keep the equation.
  pub Result-cases :
      (r : Result A) → ((a : A) × (r ≡ ok a)) ⊎ ((exception : Thrown) × (r ≡ throw exception))
  Result-cases (throw exception) = inr (exception, refl)
  Result-cases (ok a) = inl (a, refl)
