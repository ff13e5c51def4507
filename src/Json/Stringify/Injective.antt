-- ===== src/Json/Stringify/Injective.antt =====
-- About the texts of Json.Stringify.
use dokhna_tech_zatca.Prelude.{
  ℕ, ◌≡◌, refl, ap, ◌∙◌, sym, Bool, true, false, ◌||◌, List, [], ◌∷◌, ◌++◌, map, append_assoc,
  append-nil, eqb, leb, ◌&&◌, arith, if◌then◌else◌,
}
use dokhna_tech_zatca.Prelude.Text.{Text}
use dokhna_tech_zatca.Json.{
  Json, NumberPart, d0, d1, d2, d3, d4, d5, d6, d7, d8, d9, minus, plus, point, exponent, null,
  bool, num, str, arr, obj, Items, nil, cons, Fields, end, field, part_code, number_text,
}
use dokhna_tech_zatca.Json.Quote.{quote_from, quote_from-injective}
use dokhna_tech_zatca.Json.Stringify.{quote, stringify, more_items, more_fields}

-- A character of a number.
abbrev is_part : ℕ → Bool
is_part c = (leb b'0' c && leb c b'9') || (eqb c b'-' || (eqb c b'+' || (eqb c b'.' || eqb c b'e')))

abbrev starts_number : Text → Bool
starts_number [] = false
starts_number (c ∷ s) = is_part c

-- What a text begins with.
abbrev kind_of : Text → ℕ
kind_of [] = 7
kind_of (c ∷ s) =
    if eqb c b'n'
    then 0
    else if eqb c b't'
    then 1
    else if eqb c b'f'
    then 1
    else if eqb c b'"'
    then 3
    else if eqb c b'['
    then 4
    else if eqb c b'{'
    then 5
    else if is_part c
    then 6
    else 7

abbrev tag : Json → ℕ
tag null = 0
tag (bool b) = 1
tag (str s) = 3
tag (arr items) = 4
tag (obj fields) = 5
tag (num p parts) = 6

abbrev part_of : ℕ → NumberPart
part_of c =
    if eqb c b'0'
    then d0
    else if eqb c b'1'
    then d1
    else if eqb c b'2'
    then d2
    else if eqb c b'3'
    then d3
    else if eqb c b'4'
    then d4
    else if eqb c b'5'
    then d5
    else if eqb c b'6'
    then d6
    else if eqb c b'7'
    then d7
    else if eqb c b'8'
    then d8
    else if eqb c b'9'
    then d9
    else if eqb c b'-'
    then minus
    else if eqb c b'+'
    then plus
    else if eqb c b'.'
    then point
    else if eqb c b'e'
    then exponent
    else d0

false_not_true : ¬ false ≡ true
false_not_true h = cc

part_of-part_code : (p : NumberPart) → part_of (part_code p) ≡ p
part_of-part_code d0 = refl
part_of-part_code d1 = refl
part_of-part_code d2 = refl
part_of-part_code d3 = refl
part_of-part_code d4 = refl
part_of-part_code d5 = refl
part_of-part_code d6 = refl
part_of-part_code d7 = refl
part_of-part_code d8 = refl
part_of-part_code d9 = refl
part_of-part_code minus = refl
part_of-part_code plus = refl
part_of-part_code point = refl
part_of-part_code exponent = refl

part_code-IsPart : (p : NumberPart) → is_part (part_code p) ≡ true
part_code-IsPart d0 = refl
part_code-IsPart d1 = refl
part_code-IsPart d2 = refl
part_code-IsPart d3 = refl
part_code-IsPart d4 = refl
part_code-IsPart d5 = refl
part_code-IsPart d6 = refl
part_code-IsPart d7 = refl
part_code-IsPart d8 = refl
part_code-IsPart d9 = refl
part_code-IsPart minus = refl
part_code-IsPart plus = refl
part_code-IsPart point = refl
part_code-IsPart exponent = refl

kind_of-part : (p : NumberPart) (s : Text) → kind_of (part_code p ∷ s) ≡ 6
kind_of-part d0 s = refl
kind_of-part d1 s = refl
kind_of-part d2 s = refl
kind_of-part d3 s = refl
kind_of-part d4 s = refl
kind_of-part d5 s = refl
kind_of-part d6 s = refl
kind_of-part d7 s = refl
kind_of-part d8 s = refl
kind_of-part d9 s = refl
kind_of-part minus s = refl
kind_of-part plus s = refl
kind_of-part point s = refl
kind_of-part exponent s = refl

kind_of-stringify : (v : Json) (u : Text) → kind_of (stringify v ++ u) ≡ tag v
unfolding stringify
kind_of-stringify null u = refl
kind_of-stringify (bool true) u = refl
kind_of-stringify (bool false) u = refl
kind_of-stringify (num p parts) u = kind_of-part p (map part_code parts ++ u)
kind_of-stringify (str s) u = refl
kind_of-stringify (arr nil) u = refl
kind_of-stringify (arr (cons v rest)) u = refl
kind_of-stringify (obj end) u = refl
kind_of-stringify (obj (field k v rest)) u = refl

no_bracket : (v : Json) (u s : Text) → ¬ (stringify v ++ u ≡ b']' ∷ s)
no_bracket v u s h = not_seven v (sym (kind_of-stringify v u) ∙ ap kind_of h)
  where
    not_seven : (v : Json) → ¬ tag v ≡ 7
    not_seven null t = omega (arith, t)
    not_seven (bool b) t = omega (arith, t)
    not_seven (num p parts) t = omega (arith, t)
    not_seven (str s) t = omega (arith, t)
    not_seven (arr items) t = omega (arith, t)
    not_seven (obj fields) t = omega (arith, t)

more_items-ends : (items : Items) (u : Text) → starts_number (more_items items ++ u) ≡ false
unfolding more_items
more_items-ends nil u = refl
more_items-ends (cons v rest) u = refl

more_fields-ends : (fields : Fields) (u : Text) → starts_number (more_fields fields ++ u) ≡ false
unfolding more_fields
more_fields-ends end u = refl
more_fields-ends (field k v rest) u = refl

abbrev head_or : ℕ → Text → ℕ
head_or n [] = n
head_or n (c ∷ s) = c

abbrev tail_of : Text → Text
tail_of [] = []
tail_of (c ∷ s) = s

part_code-injective : (p q : NumberPart) → part_code p ≡ part_code q → p ≡ q
part_code-injective p q h = sym (part_of-part_code p) ∙ ap part_of h ∙ part_of-part_code q

parts-injective :
    (ps qs : List NumberPart) (u v : Text)
    → starts_number u ≡ false
    → starts_number v ≡ false
    → map part_code ps ++ u ≡ map part_code qs ++ v
    → (ps ≡ qs) × (u ≡ v)
parts-injective [] [] u v eu ev h = (refl, h)
parts-injective [] (q ∷ qs) u v eu ev h =
    absurd (false_not_true (sym eu ∙ ap starts_number h ∙ part_code-IsPart q))
parts-injective (p ∷ ps) [] u v eu ev h =
    absurd (false_not_true (sym ev ∙ sym (ap starts_number h) ∙ part_code-IsPart p))
parts-injective (p ∷ ps) (q ∷ qs) u v eu ev h =
    let one = part_code-injective p q (ap (head_or 0) h) in
    let (others, rest) = parts-injective ps qs u v eu ev (ap tail_of h) in
    (λ i. one i ∷ others i, rest)

-- The name of a field is read back, and what stands behind its colon.
field_head :
    (k j : Text) (a b : Json) (xs ys : Fields) (u v : Text)
    → (quote k ++ (b':' ∷ (stringify a ++ more_fields xs))) ++ u
      ≡ (quote j ++ (b':' ∷ (stringify b ++ more_fields ys))) ++ v
    → (k ≡ j) × (stringify a ++ (more_fields xs ++ u) ≡ stringify b ++ (more_fields ys ++ v))
field_head k j a b xs ys u v h =
    let (names, rest) =
      quote_from-injective false k j ((b':' ∷ (stringify a ++ more_fields xs)) ++ u)
        ((b':' ∷ (stringify b ++ more_fields ys)) ++ v)
        (sym (append_assoc (quote_from false k) (b':' ∷ (stringify a ++ more_fields xs)) u)
          ∙ ap tail_of h
          ∙ append_assoc (quote_from false j) (b':' ∷ (stringify b ++ more_fields ys)) v) in
    (
      names,
      sym (append_assoc (stringify a) (more_fields xs) u)
          ∙ ap tail_of rest
          ∙ append_assoc (stringify b) (more_fields ys) v,
    )

tag_same : (a b : Json) (u v : Text) → stringify a ++ u ≡ stringify b ++ v → tag a ≡ tag b
tag_same a b u v h = sym (kind_of-stringify a u) ∙ ap kind_of h ∙ kind_of-stringify b v

bool_same :
    (x y : Bool) (u v : Text)
    → stringify (bool x) ++ u ≡ stringify (bool y) ++ v
    → (x ≡ y) × (u ≡ v)
unfolding stringify
bool_same true true u v h = (refl, ap (λ s. tail_of (tail_of (tail_of (tail_of s)))) h)
bool_same false false u v h = (refl, ap (λ s. tail_of (tail_of (tail_of (tail_of (tail_of s))))) h)
bool_same true false u v h = absurd (omega (arith, ap (head_or 0) h))
bool_same false true u v h = absurd (omega (arith, ap (head_or 0) h))

num_same :
    (p q : NumberPart) (ps qs : List NumberPart) (u v : Text)
    → starts_number u ≡ false
    → starts_number v ≡ false
    → number_text p ps ++ u ≡ number_text q qs ++ v
    → (num p ps ≡ num q qs) × (u ≡ v)
num_same p q ps qs u v eu ev h =
    let one = part_code-injective p q (ap (head_or 0) h) in
    let (others, rest) = parts-injective ps qs u v eu ev (ap tail_of h) in
    (λ i. num (one i) (others i), rest)

mutual
  unfolding stringify more_items more_fields

  stringify-same :
      (a b : Json) (u v : Text)
      → starts_number u ≡ false
      → starts_number v ≡ false
      → stringify a ++ u ≡ stringify b ++ v
      → (a ≡ b) × (u ≡ v)
  stringify-same null null u v eu ev h = (refl, ap (λ s. tail_of (tail_of (tail_of (tail_of s)))) h)
  stringify-same (bool x) (bool y) u v eu ev h =
      let (one, rest) = bool_same x y u v h in (ap bool one, rest)
  stringify-same (num p ps) (num q qs) u v eu ev h = num_same p q ps qs u v eu ev h
  stringify-same (str x) (str y) u v eu ev h =
      let (texts, rest) = quote_from-injective false x y u v (ap tail_of h) in (ap str texts, rest)
  stringify-same (arr xs) (arr ys) u v eu ev h =
      let (items, rest) = arr-same xs ys u v h in (ap arr items, rest)
  stringify-same (obj xs) (obj ys) u v eu ev h =
      let (fields, rest) = obj-same xs ys u v h in (ap obj fields, rest)
  stringify-same a b u v eu ev h = absurd (omega (arith, tag_same a b u v h))

  arr-same :
      (xs ys : Items) (u v : Text)
      → stringify (arr xs) ++ u ≡ stringify (arr ys) ++ v
      → (xs ≡ ys) × (u ≡ v)
  arr-same nil nil u v h = (refl, ap (λ s. tail_of (tail_of s)) h)
  arr-same nil (cons w rest) u v h = absurd (
      no_bracket w (more_items rest ++ v) u
        (sym (append_assoc (stringify w) (more_items rest) v) ∙ sym (ap tail_of h)))
  arr-same (cons w rest) nil u v h = absurd (
      no_bracket w (more_items rest ++ u) v
        (sym (append_assoc (stringify w) (more_items rest) u) ∙ ap tail_of h))
  arr-same (cons a xs) (cons b ys) u v h =
      let (one, more) =
        stringify-same a b (more_items xs ++ u) (more_items ys ++ v) (more_items-ends xs u)
          (more_items-ends ys v)
          (sym (append_assoc (stringify a) (more_items xs) u)
            ∙ ap tail_of h
            ∙ append_assoc (stringify b) (more_items ys) v) in
      let (others, rest) = more_items-same xs ys u v more in (λ i. cons (one i) (others i), rest)

  obj-same :
      (xs ys : Fields) (u v : Text)
      → stringify (obj xs) ++ u ≡ stringify (obj ys) ++ v
      → (xs ≡ ys) × (u ≡ v)
  obj-same end end u v h = (refl, ap (λ s. tail_of (tail_of s)) h)
  obj-same end (field k w rest) u v h = absurd (omega (arith, ap (λ s. head_or 0 (tail_of s)) h))
  obj-same (field k w rest) end u v h = absurd (omega (arith, ap (λ s. head_or 0 (tail_of s)) h))
  obj-same (field k a xs) (field j b ys) u v h =
      let (names, values_and_more) = field_head k j a b xs ys u v (ap tail_of h) in
      let (values, more) =
        stringify-same a b (more_fields xs ++ u) (more_fields ys ++ v) (more_fields-ends xs u)
          (more_fields-ends ys v) values_and_more in
      let (others, rest) = more_fields-same xs ys u v more in
      (λ i. field (names i) (values i) (others i), rest)

  more_items-same :
      (xs ys : Items) (u v : Text) → more_items xs ++ u ≡ more_items ys ++ v → (xs ≡ ys) × (u ≡ v)
  more_items-same nil nil u v h = (refl, ap tail_of h)
  more_items-same nil (cons b ys) u v h = absurd (omega (arith, ap (head_or 0) h))
  more_items-same (cons a xs) nil u v h = absurd (omega (arith, ap (head_or 0) h))
  more_items-same (cons a xs) (cons b ys) u v h =
      let (one, more) =
        stringify-same a b (more_items xs ++ u) (more_items ys ++ v) (more_items-ends xs u)
          (more_items-ends ys v)
          (sym (append_assoc (stringify a) (more_items xs) u)
            ∙ ap tail_of h
            ∙ append_assoc (stringify b) (more_items ys) v) in
      let (others, rest) = more_items-same xs ys u v more in (λ i. cons (one i) (others i), rest)

  more_fields-same :
      (xs ys : Fields) (u v : Text)
      → more_fields xs ++ u ≡ more_fields ys ++ v
      → (xs ≡ ys) × (u ≡ v)
  more_fields-same end end u v h = (refl, ap tail_of h)
  more_fields-same end (field j b ys) u v h = absurd (omega (arith, ap (head_or 0) h))
  more_fields-same (field k a xs) end u v h = absurd (omega (arith, ap (head_or 0) h))
  more_fields-same (field k a xs) (field j b ys) u v h =
      let (names, values_and_more) = field_head k j a b xs ys u v (ap tail_of h) in
      let (values, more) =
        stringify-same a b (more_fields xs ++ u) (more_fields ys ++ v) (more_fields-ends xs u)
          (more_fields-ends ys v) values_and_more in
      let (others, rest) = more_fields-same xs ys u v more in
      (λ i. field (names i) (values i) (others i), rest)

pub stringify-injective : (a b : Json) → stringify a ≡ stringify b → a ≡ b
stringify-injective a b h =
    (stringify-same a b [] [] refl refl
      (append-nil (stringify a) ∙ h ∙ sym (append-nil (stringify b)))).0
