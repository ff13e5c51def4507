-- ===== src/Prelude/Exec.antt =====
-- Stateful code that may throw: what was written before a throw stays written, so the state comes
-- back beside the error too. The type of errors is a parameter.

use mathlib.Core.Path.{◌≡◌, refl, ap}
use mathlib.Core.Logic.{◌⊎◌, inl, inr}

pub data Result {ℓ} (E A : Type ℓ) : Type ℓ where
  ok : A → Result E A
  err : E → Result E A

pub Result-cases {ℓ} :
    {E A : Type ℓ} (r : Result E A) → ((a : A) × (r ≡ ok a)) ⊎ ((e : E) × (r ≡ err e))
Result-cases (ok a) = inl (a, refl)
Result-cases (err e) = inr (e, refl)

abbrev pub Exec {ℓ} : Type ℓ → Type ℓ → Type ℓ → Type ℓ
Exec E S A = S → Result E A × S

module _ {ℓ} {E S A : Type ℓ} where
  abbrev pub pure : A → Exec E S A
  pure a s = (ok a, s)

  abbrev pub throw : E → Exec E S A
  throw e s = (err e, s)

  abbrev pub lift : Result E A → Exec E S A
  lift r s = (r, s)

module _ {ℓ} {E S A B : Type ℓ} where
  abbrev pub continue : Result E A → (A → Exec E S B) → Exec E S B
  continue (ok a) f s = f a s
  continue (err c) f s = (err c, s)

  infixl 5 ◌>>=◌ ◌>>◌
  abbrev pub ◌>>=◌ : Exec E S A → (A → Exec E S B) → Exec E S B
  ◌>>=◌ m f s = continue (m s).0 f (m s).1

  abbrev pub ◌>>◌ : Exec E S A → Exec E S B → Exec E S B
  m >> n = m >>= λ _. n

  -- A chain that is fine, step by step.
  pub bind-ok :
      (m : Exec E S A) (f : A → Exec E S B) (s : S) {b : B}
      → ((m >>= f) s).0 ≡ ok b
      → (a : A) × ((m s).0 ≡ ok a) × ((f a (m s).1).0 ≡ ok b)
  bind-ok m f s h = continued (m s).0 f (m s).1 h
    where
      continued :
          (r : Result E A) (f : A → Exec E S B) (t : S) {b : B}
          → (continue r f t).0 ≡ ok b
          → (a : A) × (r ≡ ok a) × ((f a t).0 ≡ ok b)
      continued (ok a) f t h = (a, refl, h)
      continued (err e) f t h = absurd (cc)

  -- A chain whose first part is fine goes on behind it.
  pub bind-ran :
      (m : Exec E S A) (f : A → Exec E S B) (s : S) {a : A} {t : S}
      → m s ≡ (ok a, t)
      → (m >>= f) s ≡ f a t
  bind-ran m f s h = ap (λ x. continue x.0 f x.1) h

  -- A chain that is fine is its second part, behind the first.
  pub bind-split :
      (m : Exec E S A) (f : A → Exec E S B) (s : S) {b : B}
      → ((m >>= f) s).0 ≡ ok b
      → (a : A) × ((m s).0 ≡ ok a) × ((m >>= f) s ≡ f a (m s).1) × ((f a (m s).1).0 ≡ ok b)
  bind-split m f s h =
      let (a, fine, rest) = bind-ok m f s h in (a, fine, ap (λ r. continue r f (m s).1) fine, rest)

-- What holds of the state stays true, whatever comes of the code.
pub record Keeps {E S A : Type 0} (P : S → Type 0) (m : Exec E S A) : Type 0 where
  pub kept : (s : S) → P s → P (m s).1

pub bind-Keeps :
    {E S A B : Type 0} {P : S → Type 0} {m : Exec E S A} {f : A → Exec E S B}
    → Keeps P m
    → ((a : A) → Keeps P (f a))
    → Keeps P (m >>= f)
bind-Keeps {P} {m} {f} first then_keeps = record {
  kept = λ s h. continued (m s).0 f then_keeps (m s).1 (first.kept s h);
}
  where
    continued :
        {E S A B : Type 0} {P : S → Type 0} (r : Result E A) (f : A → Exec E S B)
        → ((a : A) → Keeps P (f a))
        → (t : S) → P t
        → P (continue r f t).1
    continued (ok a) f then_keeps t h = (then_keeps a).kept t h
    continued (err e) f then_keeps t h = h

-- Code that does not write.
pub lift-Keeps : {E S A : Type 0} {P : S → Type 0} (r : Result E A) → Keeps P (lift {S = S} r)
lift-Keeps r = record { kept = λ s h. h }

pub ok-injective {ℓ} : {E A : Type ℓ} {a b : A} → ◌≡◌ {A = Result E A} (ok a) (ok b) → a ≡ b
ok-injective h = cc
