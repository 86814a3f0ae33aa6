-- ===== src/Base/Faults.antt =====
-- The outcome of a kernel function: it returns, it stops the machine by `panic`, or the rounds
-- that a loop of the model was given are used up.
use mathlib.Core.Path.{◌≡◌, refl}

pub data Outcome {ℓ} (A : Type ℓ) : Type ℓ where
  panic out_of_fuel : Outcome A
  ok : A → Outcome A

module _ {ℓ κ} {A : Type ℓ} {B : Type κ} where
  infixl 5 ◌>>=◌
  -- the rest of the function runs only after a call that returned
  abbrev pub ◌>>=◌ : (call : Outcome A) (rest : A → Outcome B) → Outcome B
  panic >>= rest = panic
  out_of_fuel >>= rest = out_of_fuel
  ok value >>= rest = rest value

  -- Inversion of a bind that returned, for proofs where the parts stay shut.
  pub >>=-eq-ok :
      (call : Outcome A) (rest : A → Outcome B) {result : B}
      → (call >>= rest) ≡ ok result
      → (value : A) × (call ≡ ok value) × (rest value ≡ ok result)
  >>=-eq-ok panic rest h = cc
  >>=-eq-ok out_of_fuel rest h = cc
  >>=-eq-ok (ok value) rest h = (value, refl, h)
