-- ===== src/Prelude/Text.antt =====
-- JavaScript strings as lists of UTF-16 code units, and the string functions that the code calls.
pub mod Decimal
pub mod Split
pub mod Trim
pub mod Parts
use Prim.Native.Nat.{ℕ, zero, suc, ◌+◌, ◌-◌, ◌*◌, ◌/◌, ◌%◌, ◌<◌, ◌≤◌}
use Prim.Native.Char.{code}
use Prim.Native.String.{String}
use mathlib.Core.Path.{◌≡◌, refl, ap}
use mathlib.Core.Bool.{Bool, true, false, ◌&&◌, ◌||◌}
use mathlib.Core.List.{List, [], ◌∷◌, ◌++◌}
use dokhna_tech_zatca.Prelude.Tests.{ltb, leb, eqb, if◌then◌else◌}
use dokhna_tech_zatca.Prelude.Lists.{length, replicate}
use dokhna_tech_zatca.Prelude.Eq.{Eq, list_beq, list_beq_iff}

abbrev pub Text : Type 0
Text = List ℕ

-- A literal; all literals of the code are ASCII.
unfoldable pub text : String → Text
text String.[] = []
text (String.◌∷◌ c s) = code c ∷ text s

instance abbrev pub text_eq : Eq Text
text_eq = record { beq = list_beq; beq_iff = list_beq_iff }

abbrev pub is_digit : ℕ → Bool
is_digit c = leb b'0' c && leb c b'9'

-- The decimal digits of `n`, in front of `out`, with fuel.
unfoldable pub digits : ℕ → ℕ → Text → Text
digits zero n out = out
digits (suc f) n out =
    let rest = digits f (n / 10) ((b'0' + n % 10) ∷ out) in
    if ltb n 10 then (b'0' + n) ∷ out else rest

-- `String(n)` at a natural number; the fuel is enough since every round divides `n` by ten.
unfoldable pub decimal : ℕ → Text
unfolding digits
decimal n = digits (suc n) n []

-- `s.padStart(n, "0")`
unfoldable pub pad_start : ℕ → Text → Text
pad_start n s = replicate (n - length s) b'0' ++ s
