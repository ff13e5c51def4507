-- ===== src/Json.antt =====
-- Decoded JSON, the `unknown` values that the gateway returns and the code passes on.
-- Numbers are held as the characters that they print to, objects as their fields in order.
pub mod Quote
pub mod Stringify
use dokhna_tech_zatca.Prelude.{ℕ, Bool, Option, none, some, List, [], ◌∷◌, map, eqb, if◌then◌else◌}
use dokhna_tech_zatca.Prelude.Eq.{◌==◌}
use dokhna_tech_zatca.Prelude.Text.{Text, text_eq, decimal}

-- What a number prints to is made of.
pub data NumberPart : Type 0 where
  d0 d1 d2 d3 d4 d5 d6 d7 d8 d9 minus plus point exponent : NumberPart

mutual
  pub data Json : Type 0 where
    null : Json
    bool : Bool → Json
    num : NumberPart → List NumberPart → Json
    str : Text → Json
    arr : Items → Json
    obj : Fields → Json

  pub data Items : Type 0 where
    nil : Items
    cons : Json → Items → Items

  pub data Fields : Type 0 where
    end : Fields
    field : Text → Json → Fields → Fields

abbrev pub part_code : NumberPart → ℕ
part_code d0 = b'0'
part_code d1 = b'1'
part_code d2 = b'2'
part_code d3 = b'3'
part_code d4 = b'4'
part_code d5 = b'5'
part_code d6 = b'6'
part_code d7 = b'7'
part_code d8 = b'8'
part_code d9 = b'9'
part_code minus = b'-'
part_code plus = b'+'
part_code point = b'.'
part_code exponent = b'e'

abbrev pub digit : ℕ → NumberPart
digit c =
    if eqb c b'1'
    then d1
    else if eqb c b'2'
    then d2
    else if eqb c b'3'
    then d3
    else if eqb c b'4'
    then d4
    else if eqb c b'5'
    then d5
    else if eqb c b'6'
    then d6
    else if eqb c b'7'
    then d7
    else if eqb c b'8'
    then d8
    else if eqb c b'9'
    then d9
    else d0

-- `String(number)`
abbrev pub number_text : NumberPart → List NumberPart → Text
number_text p parts = part_code p ∷ map part_code parts

abbrev of_digits : List NumberPart → Json
of_digits [] = num d0 []
of_digits (d ∷ digits) = num d digits

unfoldable pub number : ℕ → Json
number n = of_digits (map digit (decimal n))

-- `body[key]` of an object: the last field of that name, `undefined` where there is none.
unfoldable pub get_field : Text → Fields → Option Json
get_field k end = none
get_field k (field j v rest) = elim (get_field k rest) [
  | some w ↦ some w
  | none ↦ if j == k then some v else none
]
