-- ===== src/Prelude/Eq.antt =====
-- Types whose values the code compares with `===` or uses as keys of a Map.
use mathlib.Core.Path.{◌≡◌, refl, ap, ◌∙◌, sym}
use mathlib.Core.Logic.{◌↔◌}
use mathlib.Core.Bool.{Bool, true, false}
use mathlib.Core.Option.{Option, none, some}
use mathlib.Core.List.{List, [], ◌∷◌}
use Prim.Native.Nat.{ℕ}
use native.Mathlib.Omega.{arith}
use dokhna_tech_zatca.Prelude.Tests.{eqb, eqb_iff}

pub record Eq {ℓ} (A : Type ℓ) : Type ℓ where
  pub beq : A → A → Bool
  pub beq_iff : (a b : A) → (beq a b ≡ true) ↔ (a ≡ b)

unfoldable pub list_beq : List ℕ → List ℕ → Bool
list_beq [] [] = true
list_beq [] (y ∷ ys) = false
list_beq (x ∷ xs) [] = false
list_beq (x ∷ xs) (y ∷ ys) = elim (eqb x y) [ true ↦ list_beq xs ys | false ↦ false ]

pub list_beq_iff : (xs ys : List ℕ) → (list_beq xs ys ≡ true) ↔ (xs ≡ ys)
unfolding list_beq
list_beq_iff [] [] = (λ h. refl, λ h. refl)
list_beq_iff [] (y ∷ ys) = ground arith
list_beq_iff (x ∷ xs) [] = ground arith
list_beq_iff (x ∷ xs) (y ∷ ys) = ground (arith, list_beq_iff xs ys)

module _ {ℓ} {A : Type ℓ} where
  -- `a === b`
  infix 50 ◌==◌
  abbrev pub ◌==◌ : ⦃e : Eq A⦄ → A → A → Bool
  ◌==◌ ⦃e⦄ a b = e.beq a b

abbrev pub option_beq {ℓ} : {A : Type ℓ} → (A → A → Bool) → Option A → Option A → Bool
option_beq f none none = true
option_beq f (some a) (some b) = f a b
option_beq f _ _ = false

pub option_beq_iff {ℓ} :
    {A : Type ℓ} ⦃e : Eq A⦄ (a b : Option A) → (option_beq e.beq a b ≡ true) ↔ (a ≡ b)
option_beq_iff none none = (λ h. refl, λ h. refl)
option_beq_iff none (some b) = ground arith
option_beq_iff (some a) none = ground arith
option_beq_iff ⦃e⦄ (some a) (some b) = ground (arith, e.beq_iff a b)

instance abbrev pub option_eq {ℓ} : {A : Type ℓ} ⦃e : Eq A⦄ → Eq (Option A)
option_eq ⦃e⦄ = record { beq = option_beq e.beq; beq_iff = option_beq_iff ⦃e = e⦄ }

instance abbrev pub nat_eq : Eq ℕ
nat_eq = record { beq = eqb; beq_iff = eqb_iff }

-- A type with an injective numbering is compared by its numbers.
pub retract_eq {ℓ} :
    {A : Type ℓ} (code : A → ℕ) (decode : ℕ → A)
    → ((a : A) → decode (code a) ≡ a)
    → (a b : A) → (eqb (code a) (code b) ≡ true) ↔ (a ≡ b)
retract_eq code decode inv a b = (
  λ h. sym (inv a) ∙ ap decode ((eqb_iff (code a) (code b)).0 h) ∙ inv b,
  λ h. (eqb_iff (code a) (code b)).1 (ap code h),
)
