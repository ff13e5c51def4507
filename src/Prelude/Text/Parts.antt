-- ===== src/Prelude/Text/Parts.antt =====
-- `s.split(c)`, `s.indexOf(c)` and `s.slice(...)` for a separator of one character.
use Prim.Native.Nat.{ℕ, suc}
use mathlib.Core.List.{List, [], ◌∷◌}
use mathlib.Core.Option.{Option, none, some}
use dokhna_tech_zatca.Prelude.Tests.{eqb, if◌then◌else◌}
use dokhna_tech_zatca.Prelude.Text.{Text}

abbrev onto_first : ℕ → List Text → List Text
onto_first c [] = (c ∷ []) ∷ []
onto_first c (part ∷ parts) = (c ∷ part) ∷ parts

unfoldable pub split : ℕ → Text → List Text
split sep [] = [] ∷ []
split sep (c ∷ s) = let rest = split sep s in if eqb c sep then [] ∷ rest else onto_first c rest

abbrev after_one : Option ℕ → Option ℕ
after_one none = none
after_one (some i) = some (suc i)

unfoldable pub index_of : ℕ → Text → Option ℕ
index_of c [] = none
index_of c (d ∷ s) = let rest = index_of c s in if eqb d c then some 0 else after_one rest
