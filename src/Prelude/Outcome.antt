-- ===== src/Prelude/Outcome.antt =====
-- How a call of the program can end.
use mathlib.Core.Option.{Option, none, some}

-- `throws` is a std::out_of_range that nothing catches, `undefined` is undefined behaviour, and
-- `endless` is no end within the rounds that the model was given.
pub data Outcome {ℓ} (A : Type ℓ) : Type ℓ where
  returns : A → Outcome A
  throws : Outcome A
  undefined : Outcome A
  endless : Outcome A

infixl 5 ◌>>=◌
abbrev pub ◌>>=◌ {ℓ κ} : {A : Type ℓ} {B : Type κ} → Outcome A → (A → Outcome B) → Outcome B
returns a >>= f = f a
throws >>= f = throws
undefined >>= f = undefined
endless >>= f = endless

-- A value that std::unordered_map::at throws for, or one that operator[] of a vector has not.
abbrev pub or_throw {ℓ} : {A : Type ℓ} → Option A → Outcome A
or_throw none = throws
or_throw (some a) = returns a

abbrev pub or_undefined {ℓ} : {A : Type ℓ} → Option A → Outcome A
or_undefined none = undefined
or_undefined (some a) = returns a
