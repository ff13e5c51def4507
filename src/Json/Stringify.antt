-- ===== src/Json/Stringify.antt =====
-- `JSON.stringify` of a decoded value (SerializeJSONProperty of ECMA-262, without an indent).
pub mod Injective
use dokhna_tech_zatca.Prelude.{
  ℕ, ◌≡◌, refl, ap, ◌∙◌, sym, Bool, true, false, ◌||◌, List, [], ◌∷◌, ◌++◌, map, append_assoc,
  append-nil, eqb, leb, ◌&&◌, arith, if◌then◌else◌,
}
use dokhna_tech_zatca.Prelude.Text.{Text}
use dokhna_tech_zatca.Json.{
  Json, NumberPart, d0, d1, d2, d3, d4, d5, d6, d7, d8, d9, minus, plus, point, exponent, null,
  bool, num, str, arr, obj, Items, nil, cons, Fields, end, field, part_code, number_text,
}
use dokhna_tech_zatca.Json.Quote.{quote_from, quote_from-injective}

abbrev pub quote : Text → Text
quote s = b'"' ∷ quote_from false s

unfoldable mutual
  pub stringify : Json → Text
  stringify null = b'n' ∷ b'u' ∷ b'l' ∷ b'l' ∷ []
  stringify (bool true) = b't' ∷ b'r' ∷ b'u' ∷ b'e' ∷ []
  stringify (bool false) = b'f' ∷ b'a' ∷ b'l' ∷ b's' ∷ b'e' ∷ []
  stringify (num p parts) = number_text p parts
  stringify (str s) = quote s
  stringify (arr nil) = b'[' ∷ b']' ∷ []
  stringify (arr (cons v rest)) = b'[' ∷ stringify v ++ more_items rest
  stringify (obj end) = b'{' ∷ b'}' ∷ []
  stringify (obj (field k v rest)) = b'{' ∷ quote k ++ (b':' ∷ (stringify v ++ more_fields rest))

  pub more_items : Items → Text
  more_items nil = b']' ∷ []
  more_items (cons v rest) = b',' ∷ stringify v ++ more_items rest

  pub more_fields : Fields → Text
  more_fields end = b'}' ∷ []
  more_fields (field k v rest) = b',' ∷ quote k ++ (b':' ∷ (stringify v ++ more_fields rest))
