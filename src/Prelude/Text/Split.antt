-- ===== src/Prelude/Text/Split.antt =====
-- Texts that are joined with a separator which they do not hold.
use Prim.Native.Nat.{ℕ}
use mathlib.Core.Path.{◌≡◌, refl}
use mathlib.Core.Logic.{◌≢◌}
use mathlib.Core.List.{[], ◌∷◌, ◌++◌}
use dokhna_tech_zatca.Prelude.Lists.{All}
use dokhna_tech_zatca.Prelude.Text.{Text}

abbrev pub Lacks : ℕ → Text → Type 0
Lacks c = All (λ x. x ≢ c)

-- A text is cut at its first separator in one way only.
pub split_unique :
    (c : ℕ) (a b : Text) {x y : Text}
    → Lacks c a
    → Lacks c b
    → a ++ c ∷ x ≡ b ++ c ∷ y
    → (a ≡ b) × (x ≡ y)
split_unique c [] [] ha hb e = (refl, cc)
split_unique c [] (j ∷ b) ha hb e = absurd (hb.0 (cc))
split_unique c (i ∷ a) [] ha hb e = absurd (ha.0 (cc))
split_unique c (i ∷ a) (j ∷ b) {x} {y} ha hb e =
    let rest : a ++ c ∷ x ≡ b ++ c ∷ y = cc in
    let head : i ≡ j = cc in
    let (p, q) = split_unique c a b ha.1 hb.1 rest in ((λ k. head k ∷ p k), q)
