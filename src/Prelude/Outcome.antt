-- ===== src/Prelude/Outcome.antt =====
-- How a call of a kernel function ends.
use mathlib.Core.Path.{◌≡◌, refl, ap}

-- It returns, it sleeps until another thread wakes it, or it faults (a failed ASSERT, a PANIC, or a
-- count that would leave its range).
pub data Outcome {ℓ} (A : Type ℓ) : Type ℓ where
  returns : A → Outcome A
  sleeps : Outcome A
  faults : Outcome A

infixl 5 ◌>>=◌
abbrev pub ◌>>=◌ {ℓ κ} : {A : Type ℓ} {B : Type κ} → Outcome A → (A → Outcome B) → Outcome B
returns a >>= f = f a
sleeps >>= f = sleeps
faults >>= f = faults

abbrev value_or {ℓ} : {A : Type ℓ} → A → Outcome A → A
value_or d (returns a) = a
value_or d sleeps = d
value_or d faults = d

pub returns-injective {ℓ} : {A : Type ℓ} {a b : A} → returns a ≡ returns b → a ≡ b
returns-injective {a} e = ap (value_or a) e

-- Inversion of a chain that returned.
pub >>=-eq-returns {ℓ κ} :
    {A : Type ℓ} {B : Type κ} (m : Outcome A) (f : A → Outcome B) {b : B}
    → (m >>= f) ≡ returns b
    → (a : A) × (m ≡ returns a) × (f a ≡ returns b)
>>=-eq-returns (returns a) f h = (a, refl, h)
>>=-eq-returns sleeps f h = cc
>>=-eq-returns faults f h = cc
