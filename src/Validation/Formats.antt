-- ===== src/Validation/Formats.antt =====
-- packages/core/src/validation/{crn,base64}.ts: registration numbers, base64 and invoice hashes.
use dokhna_tech_zatca.Prelude.{
  zero, suc, ℕ, ◌≡◌, refl, Bool, true, false, ◌&&◌, ◌||◌, [], ◌∷◌, ◌++◌, replicate, leb, eqb, arith,
  if◌then◌else◌,
}
use dokhna_tech_zatca.Prelude.Text.{Text, text, is_digit}
use dokhna_tech_zatca.Prelude.Exec.{ok, err}
use dokhna_tech_zatca.Errors.{validation_error, Result}
use dokhna_tech_zatca.Validation.{Pattern, matches, exactly}

-- `/^\d{10}$/`
unfoldable pub crn_regex : Pattern
crn_regex = replicate 10 is_digit

-- `[A-Za-z0-9+/]`
abbrev pub is_base64_char : ℕ → Bool
is_base64_char c =
    (leb b'A' c && leb c b'Z')
    || ((leb b'a' c && leb c b'z') || (is_digit c || (eqb c b'+' || eqb c b'/')))

-- `={0,2}$`
abbrev is_padding : Text → Bool
is_padding [] = true
is_padding (c ∷ []) = eqb c b'='
is_padding (c ∷ d ∷ []) = eqb c b'=' && eqb d b'='
is_padding (c ∷ d ∷ e ∷ s) = false

-- `[A-Za-z0-9+/]*={0,2}$`: no padding character is of the alphabet.
abbrev is_base64_tail : Text → Bool
is_base64_tail [] = true
is_base64_tail (c ∷ s) =
    let rest = is_base64_tail s in if is_base64_char c then rest else is_padding (c ∷ s)

-- `/^[A-Za-z0-9+/]+={0,2}$/`
unfoldable pub base64_regex : Text → Bool
base64_regex [] = false
base64_regex (c ∷ s) = is_base64_char c && is_base64_tail s

-- `/^[A-Za-z0-9+/]{43}=$/`
unfoldable pub invoice_hash_regex : Pattern
invoice_hash_regex = replicate 43 is_base64_char ++ exactly b'=' ∷ []

unfoldable pub is_commercial_registration_number : Text → Bool
is_commercial_registration_number value = matches crn_regex value

unfoldable pub as_commercial_registration_number : Text → Result Text
as_commercial_registration_number value =
    if is_commercial_registration_number value
    then ok value
    else err (
        validation_error (
          text "Invalid commercial registration number: "
          ++ (value ++ text ". Expected 10 digits.")))

unfoldable pub is_base64 : Text → Bool
is_base64 value = base64_regex value

unfoldable pub as_base64 : Text → Result Text
as_base64 value =
    if is_base64 value
    then ok value
    else err (
        validation_error (
          text
            "Invalid base64 string: contains characters outside the RFC 4648 alphabet or has malformed padding."))

unfoldable pub is_invoice_hash : Text → Bool
is_invoice_hash value = matches invoice_hash_regex value

unfoldable pub as_invoice_hash : Text → Result Text
as_invoice_hash value =
    if is_invoice_hash value
    then ok value
    else err (
        validation_error (
          text "Invalid invoice hash: "
          ++ (value ++ text ". Expected 44 base64 characters ending with '='.")))

-- The tail of a hash: alphabet characters, then one padding character.
padded_tail :
    (n : ℕ) (s : Text)
    → matches (replicate n is_base64_char ++ exactly b'=' ∷ []) s ≡ true
    → is_base64_tail s ≡ true
unfolding matches
padded_tail zero [] h = refl
padded_tail zero (c ∷ []) h = ground arith
padded_tail zero (c ∷ d ∷ s) h = absurd (ground arith)
padded_tail (suc n) [] h = refl
padded_tail (suc n) (c ∷ s) h = ground (arith, padded_tail n s)

-- An invoice hash is base64.
pub invoice_hash-is_base64 : (value : Text) → is_invoice_hash value ≡ true → is_base64 value ≡ true
unfolding is_invoice_hash invoice_hash_regex is_base64 base64_regex matches
invoice_hash-is_base64 [] h = absurd cc
invoice_hash-is_base64 (c ∷ s) h = ground (arith, padded_tail 42 s)
