-- ===== src/Validation.antt =====
-- packages/core/src/validation/{vat-number,uuid}.ts: the formats of VAT numbers and UUIDs.
-- An anchored regular expression of single characters is the list of its characters' tests.
pub mod Plain
pub mod Formats
use dokhna_tech_zatca.Prelude.{
  ℕ, Bool, true, false, ◌&&◌, ◌||◌, List, [], ◌∷◌, ◌++◌, replicate, leb, eqb, if◌then◌else◌,
}
use dokhna_tech_zatca.Prelude.Text.{Text, text, is_digit}
use dokhna_tech_zatca.Prelude.Exec.{ok, err}
use dokhna_tech_zatca.Errors.{validation_error, Result}

abbrev pub Pattern : Type 0
Pattern = List (ℕ → Bool)

unfoldable pub matches : Pattern → Text → Bool
matches [] [] = true
matches [] (c ∷ s) = false
matches (p ∷ ps) [] = false
matches (p ∷ ps) (c ∷ s) = p c && matches ps s

abbrev pub exactly : ℕ → ℕ → Bool
exactly d c = eqb c d

-- `/^3\d{13}3$/`
unfoldable pub vat_number_regex : Pattern
vat_number_regex = exactly b'3' ∷ (replicate 13 is_digit ++ exactly b'3' ∷ [])

-- `[0-9a-f]` and `[89ab]`, ignoring case.
abbrev pub is_hex : ℕ → Bool
is_hex c = is_digit c || ((leb b'a' c && leb c b'f') || (leb b'A' c && leb c b'F'))

abbrev pub is_variant : ℕ → Bool
is_variant c =
    (leb b'8' c && leb c b'9') || ((leb b'a' c && leb c b'b') || (leb b'A' c && leb c b'B'))

-- `/^[0-9a-f]{8}-[0-9a-f]{4}-4[0-9a-f]{3}-[89ab][0-9a-f]{3}-[0-9a-f]{12}$/i`
unfoldable pub uuid_v4_regex : Pattern
uuid_v4_regex =
    replicate 8 is_hex
    ++ exactly b'-'
      ∷ (replicate 4 is_hex
          ++ exactly b'-'
            ∷ exactly b'4'
            ∷ (replicate 3 is_hex
                ++ exactly b'-'
                  ∷ is_variant
                  ∷ (replicate 3 is_hex ++ exactly b'-' ∷ replicate 12 is_hex)))

unfoldable pub is_vat_number : Text → Bool
is_vat_number value = matches vat_number_regex value

unfoldable pub as_vat_number : Text → Result Text
unfolding is_vat_number
as_vat_number value =
    if is_vat_number value
    then ok value
    else err (
        validation_error (
          text "Invalid VAT number: "
          ++ (value ++ text ". Expected 15 digits starting and ending with 3.")))

unfoldable pub is_uuid_v4 : Text → Bool
is_uuid_v4 value = matches uuid_v4_regex value

unfoldable pub as_egs_uuid : Text → Result Text
unfolding is_uuid_v4
as_egs_uuid value =
    if is_uuid_v4 value
    then ok value
    else err (
        validation_error
          (text "Invalid EGS UUID: " ++ (value ++ text ". Expected UUID v4 (8-4-4-4-12 hex).")))

unfoldable pub as_invoice_uuid : Text → Result Text
unfolding is_uuid_v4
as_invoice_uuid value =
    if is_uuid_v4 value
    then ok value
    else err (
        validation_error
          (text "Invalid invoice UUID: " ++ (value ++ text ". Expected UUID v4 (8-4-4-4-12 hex).")))
