-- ===== src/Tests/Gateway.antt =====
-- Concrete runs of the QR codes and of the calls of the gateway.
use dokhna_tech_zatca.Prelude.{ℕ, ◌≡◌, ◌⊎◌, refl, Bool, some, List, [], ◌∷◌, ◌++◌, Option}
use dokhna_tech_zatca.Prelude.Eq.{list_beq}
use dokhna_tech_zatca.Prelude.Text.{Text, text_eq, text}
use dokhna_tech_zatca.Prelude.Text.Parts.{split}
use dokhna_tech_zatca.Prelude.Exec.{ok, err}
use dokhna_tech_zatca.Json.{Json, null, str, obj, field, end, get_field}
use dokhna_tech_zatca.Errors.{ZatcaError, Result}
use dokhna_tech_zatca.Xml.{get_element, get, js_string}
use dokhna_tech_zatca.Qr.{Bytes, Encoding, segment, segments, create_tlv, encode_tlv_as_base64}
use dokhna_tech_zatca.Qr.Decode.{read_tlv}
use dokhna_tech_zatca.Qr.Phases.{
  Phase2QrParams, read_leaf, read_vat_number, read_issue_timestamp, issue_timestamp, after_t,
  read_amount_text, read_vat_total, invoice_values, generate_phase2_qr,
}
use dokhna_tech_zatca.Qr.Scan.{five, phase2-read_tlv}
use dokhna_tech_zatca.Server.Tenants.{sandbox}
use dokhna_tech_zatca.Api.{Platform, HttpRequest}
use dokhna_tech_zatca.Api.Invoices.{InvoiceParams}
use dokhna_tech_zatca.Api.Calls.{submitted, IsRouted, submission_routes}

-- UTF-8 of ASCII, and base64 left out
abbrev plain : Encoding
plain = record { utf8 = λ s. s; base64 = λ b. b }

abbrev amount : Text → Json
amount s = obj (field (text "#text") (str s) end)

abbrev party : Json
party = obj (
    field (text "cac:Party")
      (obj (
        field (text "cac:PartyLegalEntity")
          (obj (field (text "cbc:RegistrationName") (str (text "S")) end))
          (field (text "cac:PartyTaxScheme")
            (obj (field (text "cbc:CompanyID") (str (text "3")) end)) end)))
      end)

abbrev document : Json
document = obj (
    field (text "Invoice")
      (obj (
        field (text "cbc:IssueDate") (str (text "D")) (
          field (text "cbc:IssueTime") (str (text "1")) (
            field (text "cac:AccountingSupplierParty") party (
              field (text "cac:LegalMonetaryTotal")
                (obj (field (text "cbc:TaxInclusiveAmount") (amount (text "9")) end))
                (field (text "cac:TaxTotal")
                  (obj (field (text "cbc:TaxAmount") (amount (text "1")) end))
                  (field (text "cbc:InvoiceTypeCode")
                    (obj (field (text "@_name") (str (text "0200000")) end)) end)))))))
      end)

abbrev params : Phase2QrParams
params = record {
  invoice = document;
  invoice_hash = text "h";
  digital_signature = text "s";
  public_key = 7 ∷ [];
  certificate_signature = 8 ∷ [];
}

abbrev scanned : List (ℕ × Bytes)
scanned =
    (1, text "S")
    ∷ (2, text "3")
    ∷ (3, text "DT1Z")
    ∷ (4, text "9")
    ∷ (5, text "1")
    ∷ (6, text "h")
    ∷ (7, text "s")
    ∷ (8, 7 ∷ [])
    ∷ (9, 8 ∷ [])
    ∷ []

abbrev qr : Text
qr =
    1 ∷ 1 ∷ b'S' ∷ 2 ∷ 1 ∷ b'3' ∷ 3 ∷ 4 ∷ b'D' ∷ b'T' ∷ b'1' ∷ b'Z' ∷ 4 ∷ 1 ∷ b'9' ∷ 5 ∷ 1 ∷ b'1'
    ∷ 6 ∷ 1 ∷ b'h' ∷ 7 ∷ 1 ∷ b's' ∷ 8 ∷ 1 ∷ 7 ∷ 9 ∷ 1 ∷ 8 ∷ []

generates : generate_phase2_qr plain params ≡ ok qr
unfolding generate_phase2_qr invoice_values read_leaf read_vat_number read_issue_timestamp
    issue_timestamp after_t read_amount_text read_vat_total get get_element get_field split text
    js_string encode_tlv_as_base64 create_tlv segments segment list_beq
generates = refl

scans : read_tlv qr ≡ some scanned
unfolding read_tlv text
scans = refl

phase2-read_tlv_example :
    (a : Text) × (b : Text) × (c : Text) × (d : Text) × (f : Text) × (invoice_values document
      ≡ ok (five a b c d f))
    × (read_tlv qr
        ≡ some (
            (1, a)
            ∷ (2, b)
            ∷ (3, c)
            ∷ (4, d)
            ∷ (5, f)
            ∷ (6, text "h")
            ∷ (7, text "s")
            ∷ (8, 7 ∷ [])
            ∷ (9, 8 ∷ [])
            ∷ []))
phase2-read_tlv_example = phase2-read_tlv plain (λ t. t) (λ b. refl) params generates

abbrev platform : Platform
platform = record { base64 = λ s. s; base64_decode = λ s. s; encode_uri_component = λ s. s }

abbrev answer : HttpRequest → Result (Option Json)
answer call = ok (some null)

abbrev submission : InvoiceParams
submission = record {
  signed_invoice_xml = text "<Invoice/>";
  invoice_hash = text "h";
  egs_uuid = text "u";
  binary_security_token = text "t";
  api_secret = text "s";
  environment = sandbox;
}

submission_routes_example :
    ((e : ZatcaError) × (submitted platform (λ xml. document) answer submission [] ≡ (err e, [])))
    ⊎ ((simplified : Bool) × (call : HttpRequest) × ((submitted platform
            (λ xml. document)
            answer
            submission
            []).1
          ≡ [] ++ call ∷ [])
        × IsRouted platform
            (λ xml. document)
            answer
            submission
            simplified
            call
            (submitted platform (λ xml. document) answer submission []).0)
submission_routes_example = submission_routes platform (λ xml. document) answer submission []
