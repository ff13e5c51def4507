-- ===== src/Qr/Phases.antt =====
-- packages/core/src/qr/phase1.ts and phase2.ts: which values the two QR codes hold.
-- Both files have the same readers of the invoice. `utf8` and `base64` are those of the encoding.
use dokhna_tech_zatca.Prelude.{
  Bool, false, Option, none, some, List, [], ◌∷◌, ◌++◌, eqb, if◌then◌else◌, or_else,
}
use dokhna_tech_zatca.Prelude.Text.{Text, text}
use dokhna_tech_zatca.Prelude.Text.Trim.{is_line_end}
use dokhna_tech_zatca.Prelude.Exec.{ok, err}
use dokhna_tech_zatca.Prelude.Fallible.{◌>>=◌}
use dokhna_tech_zatca.Json.{Json, null, obj, get_field}
use dokhna_tech_zatca.Errors.{signing_error, plain_error, Result}
use dokhna_tech_zatca.Xml.{js_string, child, get}
use dokhna_tech_zatca.Qr.{Bytes, TlvValue, string, bytes, Encoding, encode_tlv_as_base64}

abbrev pub missing : Text → Text → Text
missing path label =
    text "Cannot generate QR: missing required invoice field "
    ++ (label ++ (text " (path: " ++ (path ++ text ").")))

-- The leaf, or its `#text`.
abbrev leaf_text : Json → Text
leaf_text (obj fields) = js_string (or_else (get_field (text "#text") fields) (obj fields))
leaf_text value = js_string value

unfoldable pub read_leaf : Json → (path label : Text) → Result Text
read_leaf invoice path label = elim (get invoice path) [
  | [] ↦ err (signing_error (missing path label))
  | first ∷ rest ↦ ok (leaf_text first)
]

-- The `#text` that is neither `undefined` nor `null`.
abbrev own_text : Option Json → Option Text
own_text none = none
own_text (some null) = none
own_text (some value) = some (js_string value)

unfoldable pub read_amount_text : Json → (path label : Text) → Result Text
read_amount_text invoice path label = elim (get invoice path) [
  | [] ↦ err (signing_error (missing path label))
  | node ∷ rest ↦ elim (own_text (child (text "#text") node)) [
    | some amount ↦ ok amount
    | none ↦ err (
        signing_error (
          text "Cannot generate QR: invoice field "
          ++ (label ++ (text " has no #text value (path: " ++ (path ++ text ").")))))
  ]
]

unfoldable pub read_vat_number : Json → Result Text
unfolding read_leaf
read_vat_number invoice =
    read_leaf invoice
      (text "Invoice/cac:AccountingSupplierParty/cac:Party/cac:PartyTaxScheme/cbc:CompanyID")
      (text "VAT number")

-- `s.endsWith("Z")`
abbrev pub ends_with_z : Text → Bool
ends_with_z [] = false
ends_with_z (c ∷ []) = eqb c b'Z'
ends_with_z (c ∷ d ∷ s) = ends_with_z (d ∷ s)

-- What follows the last `T` of the first line, if it has one.
unfoldable pub after_t : Text → Option Text
after_t [] = none
after_t (c ∷ s) =
    let later = after_t s in
    if is_line_end c
    then none
    else elim later [ some rest ↦ some rest | none ↦ if eqb c b'T' then some s else none ]

unfoldable pub issue_timestamp : (issue_date issue_time : Text) → Text
unfolding after_t
issue_timestamp issue_date issue_time =
    let time_with_z = if ends_with_z issue_time then issue_time else issue_time ++ b'Z' ∷ [] in
    issue_date ++ b'T' ∷ or_else (after_t time_with_z) time_with_z

unfoldable pub read_issue_timestamp : Json → Result Text
unfolding read_leaf issue_timestamp
read_issue_timestamp invoice = do
  issue_date ← read_leaf invoice (text "Invoice/cbc:IssueDate") (text "IssueDate")
  issue_time ← read_leaf invoice (text "Invoice/cbc:IssueTime") (text "IssueTime")
  ok (issue_timestamp issue_date issue_time)

abbrev type_error : Text → Text → Text
type_error value key =
    text "Cannot read properties of " ++ (value ++ (text " (reading '" ++ (key ++ text "')")))

-- The `cbc:TaxAmount` of the first tax total; an `undefined` or `null` amount ends the chain.
abbrev tax_amount : Json → Result (Option Json)
tax_amount null =
    err (plain_error (text "TypeError") none (type_error (text "null") (text "cbc:TaxAmount")))
tax_amount (obj fields) = elim (get_field (text "cbc:TaxAmount") fields) [
  | none ↦ ok none
  | some amount ↦ ok (child (text "#text") amount)
]
tax_amount _ = ok none

unfoldable pub read_vat_total : Json → Result Text
read_vat_total invoice = elim (get invoice (text "Invoice/cac:TaxTotal")) [
  | [] ↦ err (signing_error (text "Cannot generate QR: missing required invoice field TaxTotal."))
  | first ∷ rest ↦ tax_amount first >>= λ amount. elim (own_text amount) [
    | some total ↦ ok total
    | none ↦
        err (signing_error (text "Cannot generate QR: TaxTotal has no cbc:TaxAmount/#text value."))
  ]
]

-- The five values that both codes begin with, read in the order of the code.
unfoldable pub invoice_values : Json → Result (List TlvValue)
unfolding read_leaf read_vat_number read_issue_timestamp read_amount_text read_vat_total
invoice_values invoice = do
  seller_name ←
      read_leaf invoice
        (text
          "Invoice/cac:AccountingSupplierParty/cac:Party/cac:PartyLegalEntity/cbc:RegistrationName")
        (text "Seller name")
  vat_number ← read_vat_number invoice
  timestamp ← read_issue_timestamp invoice
  invoice_total ←
      read_amount_text invoice (text "Invoice/cac:LegalMonetaryTotal/cbc:TaxInclusiveAmount")
        (text "TaxInclusiveAmount")
  vat_total ← read_vat_total invoice
  ok (
      string seller_name
      ∷ string vat_number
      ∷ string timestamp
      ∷ string invoice_total
      ∷ string vat_total
      ∷ [])

pub record Phase2QrParams : Type 0 where
  pub invoice : Json
  pub invoice_hash : Text
  pub digital_signature : Text
  pub public_key : Bytes
  pub certificate_signature : Bytes

module _ (e : Encoding) where
  unfoldable pub generate_phase1_qr : Json → Result Text
  unfolding invoice_values encode_tlv_as_base64
  generate_phase1_qr invoice = do values ← invoice_values invoice; encode_tlv_as_base64 e values

  abbrev pub cryptographic_values : Phase2QrParams → List TlvValue
  cryptographic_values p =
      string p.invoice_hash
      ∷ bytes (e.utf8 p.digital_signature)
      ∷ bytes p.public_key
      ∷ bytes p.certificate_signature
      ∷ []

  unfoldable pub generate_phase2_qr : Phase2QrParams → Result Text
  unfolding invoice_values encode_tlv_as_base64
  generate_phase2_qr p = do
    values ← invoice_values p.invoice
    encode_tlv_as_base64 e (values ++ cryptographic_values p)
