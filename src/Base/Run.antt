-- ===== src/Base/Run.antt =====
-- Calls that may throw or not return.

-- How a call ends: with a value, by the `std::out_of_range` of `at`, or not within the fuel.
pub data Run {ℓ} (A : Type ℓ) : Type ℓ where
  returns : A → Run A
  out_of_range : Run A
  out_of_fuel : Run A

infixl 5 ◌>>=◌
abbrev pub ◌>>=◌ {ℓ κ} : {A : Type ℓ} {B : Type κ} → Run A → (A → Run B) → Run B
returns a >>= f = f a
out_of_range >>= f = out_of_range
out_of_fuel >>= f = out_of_fuel

-- `P` holds of the value, if the call returns one.
abbrev pub Ensures {ℓ} : {A : Type ℓ} → (A → Type 0) → Run A → Type 0
Ensures P (returns a) = P a
Ensures P out_of_range = Unit
Ensures P out_of_fuel = Unit

pub Ensures-bind {ℓ κ} :
    {A : Type ℓ} {B : Type κ} (P : A → Type 0) (Q : B → Type 0) (m : Run A) (f : A → Run B)
    → Ensures P m
    → ((a : A) → P a → Ensures Q (f a))
    → Ensures Q (m >>= f)
Ensures-bind P Q (returns a) f h k = k a h
Ensures-bind P Q out_of_range f h k = tt
Ensures-bind P Q out_of_fuel f h k = tt
