-- ===== src/Xml.antt =====
-- packages/core/src/xml/document.ts: the queries of `XMLDocument`.
-- A document is the value that fast-xml-parser makes of it: tags are fields, repeated tags arrays.
-- A tag that is an index or `length` of an array, or a name that every object inherits, is left out:
-- no path of the code has one.
use dokhna_tech_zatca.Prelude.{true, false, Option, none, some, List, [], ◌∷◌, ◌++◌}
use dokhna_tech_zatca.Prelude.Text.{Text, text}
use dokhna_tech_zatca.Prelude.Text.Parts.{split}
use dokhna_tech_zatca.Json.{
  Json, null, bool, num, number_text, str, arr, obj, Items, nil, cons, get_field,
}

-- `String(value)`
unfoldable mutual
  pub js_string : Json → Text
  js_string null = text "null"
  js_string (bool b) = elim b [ true ↦ text "true" | false ↦ text "false" ]
  js_string (num p parts) = number_text p parts
  js_string (str s) = s
  js_string (arr items) = js_join items
  js_string (obj fields) = text "[object Object]"

  js_join : Items → Text
  js_join nil = []
  js_join (cons null nil) = []
  js_join (cons v nil) = js_string v
  js_join (cons null (cons w rest)) = b',' ∷ js_join (cons w rest)
  js_join (cons v (cons w rest)) = js_string v ++ b',' ∷ js_join (cons w rest)

-- `value[tag]`
abbrev pub child : Text → Json → Option Json
child tag (obj fields) = get_field tag fields
child tag _ = none

-- `getElement`; the path is cut at its slashes, and an empty rest of it ends the walk.
unfoldable pub get_element : Option Json → List Text → Option Json
get_element found [] = found
get_element found ([] ∷ []) = found
get_element none path = none
get_element (some value) (tag ∷ path) = get_element (child tag value) path

abbrev pub elements : Items → List Json
elements nil = []
elements (cons v rest) = v ∷ elements rest

abbrev query_result : Option Json → List Json
query_result none = []
query_result (some (arr items)) = elements items
query_result (some value) = value ∷ []

-- `get(path)` without a condition: `undefined` and the empty array are both the empty list.
unfoldable pub get : Json → Text → List Json
unfolding get_element
get document path = query_result (get_element (some document) (split b'/' path))
