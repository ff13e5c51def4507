-- ===== src/Api/Certificates.antt =====
-- packages/core/src/api/issue-compliance-cert.ts and issue-csids.ts.
-- The fields of a response are strings, as the types of the responses say.
use dokhna_tech_zatca.Prelude.{Option, none, some, [], ◌∷◌, ◌++◌, if◌then◌else◌}
use dokhna_tech_zatca.Prelude.Text.{Text, text}
use dokhna_tech_zatca.Prelude.Exec.{ok, err, pure, lift, ◌>>=◌, ◌>>◌}
use dokhna_tech_zatca.Json.{Json, null, str, obj, end, field, get_field}
use dokhna_tech_zatca.Errors.{ZatcaError, api_error, plain_error, Result, Exec}
use dokhna_tech_zatca.Server.Tenants.{ZatcaEnvironment}
use dokhna_tech_zatca.Api.{
  is_empty, require, api_failure, Platform, build_otp_headers, build_auth_headers, post, Gateway,
  get_zatca_endpoints,
}

pub record IssueComplianceCertificateParams : Type 0 where
  pub csr : Text
  pub otp : Text
  pub environment : ZatcaEnvironment

pub record IssuedCsid : Type 0 where
  pub issued_certificate : Text
  pub binary_security_token : Text
  pub api_secret : Text
  pub request_id : Text
  pub disposition_message : Option Text

pub record IssueCsidsParams : Type 0 where
  pub compliance_request_id : Text
  pub binary_security_token : Text
  pub api_secret : Text
  pub environment : ZatcaEnvironment

-- An error for a response that lacks a field, with the response.
abbrev lacking : Text → Json → ZatcaError
lacking message raw = api_error (record {
  message = message;
  status_code = 0;
  validation_results = none;
  request_id = none;
  raw_response = some raw;
})

abbrev cannot_read : Text → ZatcaError
cannot_read value =
    plain_error (text "TypeError") none
      (text "Cannot read properties of " ++ (value ++ text " (reading 'binarySecurityToken')"))

abbrev own_text : Option Json → Option Text
own_text (some (str s)) = some s
own_text _ = none

-- `raw[name]`
abbrev text_field : Text → Json → Option Text
text_field name (obj fields) = own_text (get_field name fields)
text_field name _ = none

-- `if (!raw[name]) throw …`
abbrev required : Text → Text → Json → Result Text
required name message raw = elim (text_field name raw) [
  | none ↦ err (lacking message raw)
  | some value ↦ if is_empty value then err (lacking message raw) else ok value
]

abbrev response_of : Option Json → Result Json
response_of none = err (cannot_read (text "undefined"))
response_of (some null) = err (cannot_read (text "null"))
response_of (some raw) = ok raw

-- The decoding of the certificate, in its armour.
unfoldable pub wrap_certificate_pem : Platform → Text → Text
wrap_certificate_pem platform base64_body =
    text "-----BEGIN CERTIFICATE-----"
    ++ b'\n' ∷ (platform.base64_decode base64_body ++ b'\n' ∷ text "-----END CERTIFICATE-----")

module _ {W : Type 0} (platform : Platform) (gateway : Gateway W) where
  -- The checks of a response, in the order of the code, and the result.
  unfoldable pub issued_csid :
      (wrap : Text → Text) → (endpoint : Text) → Option Json → Exec W IssuedCsid
  issued_csid wrap endpoint answer = do
    raw ← lift (response_of answer)
    token ← lift (
        required (text "binarySecurityToken")
          (endpoint ++ text " response missing `binarySecurityToken`") raw)
    secret ← lift (required (text "secret") (endpoint ++ text " response missing `secret`") raw)
    request_id ←
        lift (required (text "requestID") (endpoint ++ text " response missing `requestID`") raw)
    pure (record {
      issued_certificate = wrap token;
      binary_security_token = token;
      api_secret = secret;
      request_id = request_id;
      disposition_message = text_field (text "dispositionMessage") raw;
    })

  unfoldable pub issue_compliance_certificate : IssueComplianceCertificateParams → Exec W IssuedCsid
  unfolding issued_csid wrap_certificate_pem
  issue_compliance_certificate p = do
    lift (require p.csr (api_failure (text "csr is required to issue a compliance certificate")))
    lift (require p.otp (api_failure (text "otp is required to issue a compliance certificate")))
    headers ← lift (build_otp_headers p.otp)
    answer ← gateway.send (record {
      base_url = (get_zatca_endpoints p.environment).base;
      method = post;
      path = (get_zatca_endpoints p.environment).compliance_certificate;
      query = [];
      headers = headers;
      body = some (obj (field (text "csr") (str (platform.base64 p.csr)) end));
    })
    issued_csid (wrap_certificate_pem platform) (text "ZATCA compliance") answer

  unfoldable pub issue_csids : IssueCsidsParams → Exec W IssuedCsid
  unfolding issued_csid
  issue_csids p = do
    lift (
        require p.compliance_request_id
          (api_failure (text "complianceRequestId is required for CSID issuance")))
    lift (
        require p.binary_security_token
          (api_failure (text "binarySecurityToken is required for CSID issuance")))
    lift (require p.api_secret (api_failure (text "apiSecret is required for CSID issuance")))
    headers ← lift (build_auth_headers platform p.binary_security_token p.api_secret)
    answer ← gateway.send (record {
      base_url = (get_zatca_endpoints p.environment).base;
      method = post;
      path = (get_zatca_endpoints p.environment).csids;
      query = [];
      headers = headers;
      body = some (obj (field (text "compliance_request_id") (str p.compliance_request_id) end));
    })
    issued_csid platform.base64_decode (text "ZATCA CSIDS") answer
