-- ===== src/Prelude/Sets.antt =====
-- A `std::string`, as its bytes, and sets of values.
use Prim.Native.Nat.{ℕ}
use mathlib.Core.Bool.{Bool, true, false}
use mathlib.Core.List.{List, [], ◌∷◌}
use mathlib.Core.Logic.{ite}
unfoldable pub use native.Mathlib.Decide.{ℕ_discrete}

abbrev pub Bytes : Type 0
Bytes = List ℕ

unfoldable pub bytes_discrete : Discrete Bytes
bytes_discrete = hlevel ℕ_discrete

module _ {ℓ} {A : Type ℓ} (dec : Discrete A) where
  -- `set.count(a)`
  unfoldable pub contains : A → List A → Bool
  contains a [] = false
  contains a (x ∷ xs) = ite (dec x a) true (contains a xs)

  -- `set.insert(a)`
  unfoldable pub add_to : A → List A → List A
  add_to a [] = a ∷ []
  add_to a (x ∷ xs) = ite (dec x a) (x ∷ xs) (x ∷ add_to a xs)
