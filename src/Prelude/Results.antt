-- ===== src/Prelude/Results.antt =====
-- What a call can do: return, touch memory that is gone, or go on past the rounds it was given.

pub data Outcome {ℓ} (A : Type ℓ) : Type ℓ where
  done : A → Outcome A
  -- a read through an iterator whose node has been erased
  fault : Outcome A
  -- a `while` loop that has used up its fuel
  running : Outcome A

infixl 5 ◌>>=◌
abbrev pub ◌>>=◌ {ℓ κ} : {A : Type ℓ} {B : Type κ} → Outcome A → (A → Outcome B) → Outcome B
done a >>= f = f a
fault >>= f = fault
running >>= f = running
