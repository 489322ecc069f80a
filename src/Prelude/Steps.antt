-- ===== src/Prelude/Steps.antt =====
-- A step on a state that may fail: the state is changed also where it fails.
use uniclaw.Prelude.Results.{Result, ok, err}

abbrev pub Step {ℓ} : Type ℓ → Type ℓ → Type ℓ → Type ℓ
Step C E A = C → Result E A × C

module _ {ℓ} {C E A B : Type ℓ} where
  -- `?` stops at an error.
  abbrev pub continue : (A → Step C E B) → Result E A × C → Result E B × C
  continue f (ok a, c) = f a c
  continue f (err e, c) = (err e, c)

  infixl 5 ◌>>=◌
  abbrev pub ◌>>=◌ : Step C E A → (A → Step C E B) → Step C E B
  ◌>>=◌ m f c = continue f (m c)

module _ {C E B : Type 0} where
  infixl 5 ◌>>◌
  abbrev pub ◌>>◌ : Step C E (Unit {0}) → Step C E B → Step C E B
  m >> k = m >>= λ _. k

abbrev pub done {ℓ} : {C E A : Type ℓ} → Result E A → Step C E A
done r c = (r, c)
