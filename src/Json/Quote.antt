-- ===== src/Json/Quote.antt =====
-- How `JSON.stringify` prints a string (QuoteJSONString of ECMA-262).
use dokhna_tech_zatca.Prelude.{
  ℕ, ◌+◌, ◌-◌, ◌*◌, ◌/◌, ◌%◌, ◌<◌, ◌≡◌, refl, ap, ◌∙◌, sym, Bool, Bool-cases, true, false, ◌&&◌,
  inl, inr, Option, Option-cases, none, some, [], ◌∷◌, ◌++◌, append_assoc, ltb, leb, eqb, arith,
  if◌then◌else◌,
}
use dokhna_tech_zatca.Prelude.Text.{Text}

abbrev hex_digit : ℕ → ℕ
hex_digit k = if ltb k 10 then k + 48 else k + 87

abbrev hex_value : ℕ → ℕ
hex_value c = if ltb c 87 then c - 48 else c - 87

hex_value-hex_digit : (k : ℕ) → k < 16 → hex_value (hex_digit k) ≡ k
hex_value-hex_digit k h = ground arith

-- `\uXXXX`, in small letters.
abbrev unicode_escape : ℕ → Text
unicode_escape c =
    b'\\'
    ∷ b'u'
    ∷ hex_digit (c / 4096)
    ∷ hex_digit (c / 256 % 16)
    ∷ hex_digit (c / 16 % 16)
    ∷ hex_digit (c % 16)
    ∷ []

abbrev is_high : ℕ → Bool
is_high c = leb 55296 c && leb c 56319

abbrev is_low : ℕ → Bool
is_low c = leb 56320 c && leb c 57343

-- The letter of a short escape.
unfoldable short : ℕ → Option ℕ
short c =
    if eqb c 8
    then some b'b'
    else if eqb c 9
    then some b't'
    else if eqb c 10
    then some b'n'
    else if eqb c 12
    then some b'f'
    else if eqb c 13
    then some b'r'
    else if eqb c b'"'
    then some b'"'
    else if eqb c b'\\'
    then some b'\\'
    else none

unfoldable escaped : ℕ → Text
unfolding short
escaped c = elim (short c) [
  | some x ↦ b'\\' ∷ x ∷ []
  | none ↦ if ltb c 32 then unicode_escape c else c ∷ []
]

-- One code unit: `paired` tells whether the one before is the high half of its pair, `pairs` whether
-- the one behind can be the low half. A half without the other is escaped.
unfoldable token : (paired pairs : Bool) → ℕ → Text
unfolding escaped
token paired pairs c =
    if is_high c
    then if pairs then c ∷ [] else unicode_escape c
    else if is_low c
    then if paired then c ∷ [] else unicode_escape c
    else escaped c

abbrev starts_low : Text → Bool
starts_low [] = false
starts_low (c ∷ s) = is_low c

unfoldable pub quote_from : (paired : Bool) → Text → Text
unfolding token
quote_from paired [] = b'"' ∷ []
quote_from paired (c ∷ s) =
    token paired (starts_low s) c ++ quote_from (is_high c && starts_low s) s

-- The reader: the code unit that a printed string begins with, and the rest; none at its end.
abbrev hex4 : Text → Option (ℕ × Text)
hex4 (a ∷ b ∷ c ∷ d ∷ s) =
    some (hex_value a * 4096 + (hex_value b * 256 + (hex_value c * 16 + hex_value d)), s)
hex4 _ = none

abbrev unescape : ℕ → Text → Option (ℕ × Text)
unescape x s =
    if eqb x b'b'
    then some (8, s)
    else if eqb x b't'
    then some (9, s)
    else if eqb x b'n'
    then some (10, s)
    else if eqb x b'f'
    then some (12, s)
    else if eqb x b'r'
    then some (13, s)
    else if eqb x b'u'
    then hex4 s
    else some (x, s)

abbrev behind : Text → Option (ℕ × Text)
behind [] = none
behind (x ∷ s) = unescape x s

unfoldable read_unit : Text → Option (ℕ × Text)
read_unit [] = none
read_unit (x ∷ s) = if eqb x b'"' then none else if eqb x b'\\' then behind s else some (x, s)

hex4-unicode : (c : ℕ) (r : Text) → c < 65536 → read_unit (unicode_escape c ++ r) ≡ some (c, r)
unfolding read_unit
hex4-unicode c r h =
    let a = hex_value-hex_digit (c / 4096) (omega arith) in
    let b = hex_value-hex_digit (c / 256 % 16) (omega arith) in
    let d = hex_value-hex_digit (c / 16 % 16) (omega arith) in
    let e = hex_value-hex_digit (c % 16) (omega arith) in
    ap (λ n. some (n, r)) (omega (arith, a, b, d, e))

unescape-short : (c x : ℕ) (s : Text) → short c ≡ some x → unescape x s ≡ some (c, s)
unfolding short
unescape-short c x s h = ground arith

short-plain : (c : ℕ) → short c ≡ none → (eqb c b'"' ≡ false) × (eqb c b'\\' ≡ false)
unfolding short
short-plain c h = (ground arith, ground arith)

read_unit-escaped : (c : ℕ) (r : Text) → read_unit (escaped c ++ r) ≡ some (c, r)
unfolding read_unit escaped
read_unit-escaped c r = elim (Option-cases (short c)) [
  | inr (x, is_short) ↦ rw (escaped, is_short) (unescape-short c x r is_short)
  | inl plain ↦ elim (Bool-cases (ltb c 32)) [
    | inl control ↦ rw (escaped, plain, control) (hex4-unicode c r (ground arith))
    | inr other ↦
        let (no_quote, no_slash) = short-plain c plain in
        rw (escaped, plain, other, read_unit, no_quote, no_slash) refl
  ]
]

read_unit-token :
    (paired pairs : Bool) (c : ℕ) (r : Text) → read_unit (token paired pairs c ++ r) ≡ some (c, r)
unfolding token
read_unit-token paired pairs c r = ground (arith, hex4-unicode c r, read_unit-escaped c r)

none_not_some : {A : Type 0} {a : A} → ¬ none ≡ some a
none_not_some h = cc

read_same :
    {a b : ℕ} {s t : Text}
    → ◌≡◌ {A = Option (ℕ × Text)} (some (a, s)) (some (b, t))
    → (a ≡ b) × (s ≡ t)
read_same h = (cc, cc)

read_unit-quote_from :
    (paired : Bool) (c : ℕ) (s u : Text)
    → read_unit (quote_from paired (c ∷ s) ++ u)
      ≡ some (c, quote_from (is_high c && starts_low s) s ++ u)
unfolding quote_from
read_unit-quote_from paired c s u =
    ap read_unit
      (append_assoc (token paired (starts_low s) c) (quote_from (is_high c && starts_low s) s) u)
    ∙ read_unit-token paired (starts_low s) c (quote_from (is_high c && starts_low s) s ++ u)

-- How the high half of a pair is printed tells whether the low half is there.
high_same :
    (paired a b : Bool) (c : ℕ) (x y : Text)
    → is_high c ≡ true
    → token paired a c ++ x ≡ token paired b c ++ y
    → a ≡ b
unfolding token
high_same paired a b c x y high h = ground arith

flag_same :
    (paired : Bool) (c : ℕ) (s t u v : Text)
    → quote_from paired (c ∷ s) ++ u ≡ quote_from paired (c ∷ t) ++ v
    → (is_high c && starts_low s) ≡ (is_high c && starts_low t)
unfolding quote_from
flag_same paired c s t u v h = elim (Bool-cases (is_high c)) [
  | inr other ↦ rw other refl
  | inl high ↦
      ap (λ b. is_high c && b)
        (high_same paired (starts_low s) (starts_low t) c _ _ high (
          sym (append_assoc (token paired (starts_low s) c) _ u)
          ∙ h
          ∙ append_assoc (token paired (starts_low t) c) _ v))
]

-- Two printed strings, with anything behind them, are equal only if the strings are.
pub quote_from-injective :
    (paired : Bool) (s t u v : Text)
    → quote_from paired s ++ u ≡ quote_from paired t ++ v
    → (s ≡ t) × (u ≡ v)
unfolding quote_from read_unit
quote_from-injective paired [] [] u v h = (refl, cc)
quote_from-injective paired [] (d ∷ t) u v h =
    absurd (none_not_some (ap read_unit h ∙ read_unit-quote_from paired d t v))
quote_from-injective paired (c ∷ s) [] u v h =
    absurd (none_not_some (ap read_unit (sym h) ∙ read_unit-quote_from paired c s u))
quote_from-injective paired (c ∷ s) (d ∷ t) u v h =
    let (same, rest) = read_same (
      sym (read_unit-quote_from paired c s u)
      ∙ ap read_unit h
      ∙ read_unit-quote_from paired d t v) in
    let h' : quote_from paired (c ∷ s) ++ u ≡ quote_from paired (c ∷ t) ++ v =
      h ∙ ap (λ x. quote_from paired (x ∷ t) ++ v) (sym same) in
    let flags : (is_high c && starts_low s) ≡ (is_high d && starts_low t) =
      flag_same paired c s t u v h' ∙ ap (λ x. is_high x && starts_low t) same in
    let (texts, behind_them) =
      quote_from-injective (is_high d && starts_low t) s t u v
        (ap (λ b. quote_from b s ++ u) (sym flags) ∙ rest) in
    (λ i. same i ∷ texts i, behind_them)
