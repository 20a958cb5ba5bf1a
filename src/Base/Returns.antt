-- ===== src/Base/Returns.antt =====
-- What a C function that returns an error code gives back.
use mathlib.Core.Path.{◌≡◌, refl}
use mathlib.Core.Logic.{◌≢◌}
use native.Mathlib.Omega.{arith}

-- `ok` is the success code with what goes out through pointers, `err` one of the error codes, and
-- `fault` an access that C leaves undefined, or a loop whose fuel ran out.
pub data Result {ℓ κ} (E : Type ℓ) (A : Type κ) : Type (ℓ ⊔ κ) where
  ok : A → Result E A
  err : E → Result E A
  fault : Result E A

infixl 5 ◌>>=◌
abbrev pub ◌>>=◌ {ℓ κ ι} :
    {E : Type ℓ} {A : Type κ} {B : Type ι} → Result E A → (A → Result E B) → Result E B
ok a >>= f = f a
err e >>= f = err e
fault >>= f = fault

-- No result but `fault` is a fault.
module _ {ℓ κ} {E : Type ℓ} {A : Type κ} where
  pub ok-returns : (r : Result E A) (a : A) → r ≡ ok a → r ≢ fault
  ok-returns r a e h = absurd (ground (arith, e, h))

  pub err-returns : (r : Result E A) (x : E) → r ≡ err x → r ≢ fault
  err-returns r x e h = absurd (ground (arith, e, h))

  pub bind-returns {ι} :
      {B : Type ι} (r : Result E A) (k : A → Result E B)
      → r ≢ fault
      → ((a : A) → r ≡ ok a → k a ≢ fault)
      → (r >>= k) ≢ fault
  bind-returns (ok a) k ne h = h a refl
  bind-returns (err x) k ne h = λ e. absurd (ground (arith, e))
  bind-returns fault k ne h = absurd (ne refl)
