-- ===== src/Prelude/Text/Trim.antt =====
-- `trim()`, and the line terminators of regular expressions.
use dokhna_tech_zatca.Prelude.Tests.{leb, eqb, if◌then◌else◌}
use mathlib.Core.Bool.{Bool, ◌||◌, ◌&&◌}
use mathlib.Core.List.{[], ◌∷◌}
use Prim.Native.Nat.{ℕ}
use dokhna_tech_zatca.Prelude.Text.{Text}

-- JavaScript's white space and line terminators.
unfoldable pub is_space : ℕ → Bool
is_space c =
    (leb 9 c && leb c 13)
    || (eqb c 32
        || (eqb c 160
            || (eqb c 5760
                || ((leb 8192 c && leb c 8202)
                    || (eqb c 8232
                        || (eqb c 8233
                            || (eqb c 8239 || (eqb c 8287 || (eqb c 12288 || eqb c 65279)))))))))

unfoldable pub trim_start : Text → Text
trim_start [] = []
trim_start (c ∷ s) = let rest = trim_start s in if is_space c then rest else c ∷ s

unfoldable pub trim_end : Text → Text
trim_end [] = []
trim_end (c ∷ s) = elim (trim_end s) [
  | [] ↦ if is_space c then [] else c ∷ []
  | d ∷ rest ↦ c ∷ d ∷ rest
]

unfoldable pub trim : Text → Text
unfolding trim_start trim_end
trim s = trim_end (trim_start s)

-- The characters that `.` does not match.
abbrev pub is_line_end : ℕ → Bool
is_line_end c = eqb c 10 || (eqb c 13 || (eqb c 8232 || eqb c 8233))
