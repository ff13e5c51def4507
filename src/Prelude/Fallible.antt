-- ===== src/Prelude/Fallible.antt =====
-- Code that only may throw: `do` blocks of results.
use mathlib.Core.Path.{◌≡◌, refl}
use dokhna_tech_zatca.Prelude.Exec.{Result, ok, err}

module _ {ℓ} {E A B : Type ℓ} where
  infixl 5 ◌>>=◌ ◌>>◌
  abbrev pub ◌>>=◌ : Result E A → (A → Result E B) → Result E B
  ok a >>= f = f a
  err e >>= f = err e

  abbrev pub ◌>>◌ : Result E A → Result E B → Result E B
  m >> n = m >>= λ _. n

  -- A result that is fine comes of a first part that is fine.
  pub fine_first :
      (m : Result E A) (f : A → Result E B) {b : B}
      → m >>= f ≡ ok b
      → (a : A) × (m ≡ ok a) × (f a ≡ ok b)
  fine_first (ok a) f h = (a, refl, h)
  fine_first (err e) f h = absurd (cc)
