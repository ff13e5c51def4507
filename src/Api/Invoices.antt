-- ===== src/Api/Invoices.antt =====
-- packages/core/src/api/compliance.ts, clearance-reporting.ts, cancel-invoice.ts, check-status.ts.
-- `new XMLDocument(xml)` is a parameter: the value that fast-xml-parser makes of the text.
use dokhna_tech_zatca.Prelude.{
  Bool, false, Option, none, some, [], ◌∷◌, ◌++◌, if◌then◌else◌, eqb, ◌&&◌,
}
use dokhna_tech_zatca.Prelude.Text.{Text, text}
use dokhna_tech_zatca.Prelude.Exec.{ok, err, pure, lift, ◌>>=◌, ◌>>◌}
use dokhna_tech_zatca.Json.{Json, null, bool, str, obj, end, field}
use dokhna_tech_zatca.Errors.{ZatcaError, Result, Exec}
use dokhna_tech_zatca.Xml
use dokhna_tech_zatca.Server.Tenants.{ZatcaEnvironment}
use dokhna_tech_zatca.Api.{
  require, api_failure, Platform, build_auth_headers, build_clearance_headers, get, post, Gateway,
  get_zatca_endpoints,
}

-- The parameters of the compliance check and of a submission.
pub record InvoiceParams : Type 0 where
  pub signed_invoice_xml : Text
  pub invoice_hash : Text
  pub egs_uuid : Text
  pub binary_security_token : Text
  pub api_secret : Text
  pub environment : ZatcaEnvironment

pub record CancelInvoiceParams : Type 0 where
  pub invoice_id : Text
  pub clearance_number : Text
  pub reason : Text
  pub binary_security_token : Text
  pub api_secret : Text
  pub environment : ZatcaEnvironment

pub record CheckInvoiceStatusParams : Type 0 where
  pub invoice_id : Text
  pub clearance_number : Text
  pub binary_security_token : Text
  pub api_secret : Text
  pub environment : ZatcaEnvironment

pub data SubmissionEndpoint : Type 0 where
  reporting clearance : SubmissionEndpoint

pub data SubmissionType : Type 0 where
  simplified_invoice standard_invoice : SubmissionType

pub record SubmissionResult : Type 0 where
  pub endpoint : SubmissionEndpoint
  pub invoice_type : SubmissionType
  pub response : Option Json

-- `${what} is required for ${purpose}`
abbrev is_required : Text → Text → ZatcaError
is_required what purpose = api_failure (what ++ (text " is required for " ++ purpose))

-- The five checks that both invoice calls begin with.
abbrev pub require_invoice : Text → InvoiceParams → Result (Unit {0})
require_invoice purpose p =
    elim (require p.signed_invoice_xml (is_required (text "signedInvoiceXml") purpose)) [
      | err e ↦ err e
      | ok done ↦ elim (require p.invoice_hash (is_required (text "invoiceHash") purpose)) [
        | err e ↦ err e
        | ok done ↦ elim (require p.egs_uuid (is_required (text "egsUuid") purpose)) [
          | err e ↦ err e
          | ok done ↦
              elim (require p.binary_security_token
                (is_required (text "binarySecurityToken") purpose)) [
                  | err e ↦ err e
                  | ok done ↦ require p.api_secret (is_required (text "apiSecret") purpose)
                ]
        ]
      ]
    ]

-- `{ invoiceHash, uuid, invoice }`
abbrev pub invoice_body : Platform → InvoiceParams → Json
invoice_body platform p = obj (
    field (text "invoiceHash") (str p.invoice_hash) (
      field (text "uuid") (str p.egs_uuid)
        (field (text "invoice") (str (platform.base64 p.signed_invoice_xml)) end)))

abbrev no_element : ZatcaError
no_element =
    api_failure
      (text "Cannot determine invoice type: `InvoiceTypeCode` element missing from signed XML")

abbrev starts_with_02 : Text → Bool
starts_with_02 (c ∷ d ∷ s) = eqb c b'0' && eqb d b'2'
starts_with_02 s = false

abbrev no_name : ZatcaError
no_name =
    api_failure (text "Cannot determine invoice type: `InvoiceTypeCode/@name` attribute missing")

-- The kind in the `name` of the first element; an element that is falsy is missing.
abbrev simplified_by : Json → Result Bool
simplified_by null = err no_element
simplified_by (bool false) = err no_element
simplified_by (str []) = err no_element
simplified_by first = elim (Xml.child (text "@_name") first) [
  | some (str name) ↦ ok (starts_with_02 name)
  | _ ↦ err no_name
]

-- `isSimplifiedInvoice`, on the parsed document.
unfoldable pub is_simplified_invoice : Json → Result Bool
is_simplified_invoice doc = elim (Xml.get doc (text "Invoice/cbc:InvoiceTypeCode")) [
  | [] ↦ err no_element
  | first ∷ rest ↦ simplified_by first
]

module _ {W : Type 0} (platform : Platform) (gateway : Gateway W) where
  unfoldable pub check_invoice_compliance : InvoiceParams → Exec W (Option Json)
  check_invoice_compliance p = do
    lift (require_invoice (text "compliance check") p)
    headers ← lift (build_auth_headers platform p.binary_security_token p.api_secret)
    gateway.send (record {
      base_url = (get_zatca_endpoints p.environment).base;
      method = post;
      path = (get_zatca_endpoints p.environment).compliance;
      query = [];
      headers = headers;
      body = some (invoice_body platform p);
    })

  abbrev pub submission_path : ZatcaEnvironment → Bool → Text
  submission_path environment simplified =
      if simplified
      then (get_zatca_endpoints environment).reporting
      else (get_zatca_endpoints environment).clearance

  unfoldable pub single_invoice_reporting_or_clearance_status :
      (parse_xml : Text → Json) → InvoiceParams → Exec W SubmissionResult
  unfolding is_simplified_invoice
  single_invoice_reporting_or_clearance_status parse_xml p = do
    lift (require_invoice (text "invoice submission") p)
    simplified ← lift (is_simplified_invoice (parse_xml p.signed_invoice_xml))
    headers ← lift (build_clearance_headers platform p.binary_security_token p.api_secret)
    response ← gateway.send (record {
      base_url = (get_zatca_endpoints p.environment).base;
      method = post;
      path = submission_path p.environment simplified;
      query = [];
      headers = headers;
      body = some (invoice_body platform p);
    })
    pure (record {
      endpoint = if simplified then reporting else clearance;
      invoice_type = if simplified then simplified_invoice else standard_invoice;
      response = response;
    })

  unfoldable pub cancel_invoice : CancelInvoiceParams → Exec W (Option Json)
  cancel_invoice p = do
    lift (require p.invoice_id (is_required (text "invoiceId") (text "cancel")))
    lift (require p.clearance_number (is_required (text "clearanceNumber") (text "cancel")))
    lift (require p.reason (is_required (text "reason") (text "cancel")))
    lift
        (require p.binary_security_token (is_required (text "binarySecurityToken") (text "cancel")))
    lift (require p.api_secret (is_required (text "apiSecret") (text "cancel")))
    headers ← lift (build_auth_headers platform p.binary_security_token p.api_secret)
    gateway.send (record {
      base_url = (get_zatca_endpoints p.environment).base;
      method = post;
      path =
          (get_zatca_endpoints p.environment).cancel_invoice
          ++ b'/' ∷ platform.encode_uri_component p.invoice_id;
      query = [];
      headers = headers;
      body = some (
          obj (
            field (text "clearanceNumber") (str p.clearance_number)
              (field (text "reason") (str p.reason) end)));
    })

  unfoldable pub check_invoice_status : CheckInvoiceStatusParams → Exec W (Option Json)
  check_invoice_status p = do
    lift (require p.invoice_id (is_required (text "invoiceId") (text "status lookup")))
    lift (require p.clearance_number (is_required (text "clearanceNumber") (text "status lookup")))
    lift (
        require p.binary_security_token
          (is_required (text "binarySecurityToken") (text "status lookup")))
    lift (require p.api_secret (is_required (text "apiSecret") (text "status lookup")))
    headers ← lift (build_auth_headers platform p.binary_security_token p.api_secret)
    gateway.send (record {
      base_url = (get_zatca_endpoints p.environment).base;
      method = get;
      path =
          (get_zatca_endpoints p.environment).invoice_status
          ++ b'/' ∷ platform.encode_uri_component p.invoice_id;
      query = (text "clearanceNumber", p.clearance_number) ∷ [];
      headers = headers;
      body = none;
    })
