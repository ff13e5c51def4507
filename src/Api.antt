-- ===== src/Api.antt =====
-- packages/core/src/api/: the endpoints and headers of the gateway, and what a call of it is.
-- The gateway is an interface: `send` is `request` of http-client.ts, with the options that the
-- caller passed on, over a state of its own. Base64 and `encodeURIComponent` are parameters.
pub mod Certificates
pub mod Invoices
pub mod Calls
pub mod Keeps
use dokhna_tech_zatca.Prelude.{
  ℕ, Bool, true, false, Option, none, some, List, [], ◌∷◌, ◌++◌, if◌then◌else◌,
}
use dokhna_tech_zatca.Prelude.Text.{Text, text}
use dokhna_tech_zatca.Prelude.Exec.{ok, err}
use dokhna_tech_zatca.Json.{Json}
use dokhna_tech_zatca.Errors.{ZatcaError, plain_error, Result, Exec}
use dokhna_tech_zatca.Http.{HttpEnv, request, failure}
use dokhna_tech_zatca.Server.Tenants.{ZatcaEnvironment, sandbox, simulation, production}

pub record ZatcaEnvironmentEndpoints : Type 0 where
  pub base : Text
  pub compliance : Text
  pub clearance : Text
  pub reporting : Text
  pub compliance_certificate : Text
  pub csids : Text
  pub cancel_invoice : Text
  pub invoice_status : Text

abbrev with_base : Text → ZatcaEnvironmentEndpoints
with_base base = record {
  base = base;
  compliance = text "/compliance/invoices";
  clearance = text "/invoices/clearance/single";
  reporting = text "/invoices/reporting/single";
  compliance_certificate = text "/compliance";
  csids = text "/production/csids";
  cancel_invoice = text "/invoices/cancel";
  invoice_status = text "/invoices/status";
}

-- `ZATCA_ENDPOINTS`
unfoldable pub zatca_endpoints : ZatcaEnvironment → ZatcaEnvironmentEndpoints
zatca_endpoints sandbox =
    with_base (text "https://gw-fatoora.zatca.gov.sa/e-invoicing/developer-portal")
zatca_endpoints simulation =
    with_base (text "https://gw-fatoora.zatca.gov.sa/e-invoicing/simulation")
zatca_endpoints production = with_base (text "https://gw-fatoora.zatca.gov.sa/e-invoicing/core")

-- The type has no fourth environment, for which the function throws.
unfoldable pub get_zatca_endpoints : ZatcaEnvironment → ZatcaEnvironmentEndpoints
unfolding zatca_endpoints
get_zatca_endpoints environment = zatca_endpoints environment

abbrev pub Headers : Type 0
Headers = List (Text × Text)

unfoldable pub build_base_headers : Headers
build_base_headers =
    (text "Accept-Version", text "V2")
    ∷ (text "Accept-Language", text "en")
    ∷ (text "Content-Type", text "application/json")
    ∷ (text "Accept", text "application/json")
    ∷ []

abbrev pub is_empty : Text → Bool
is_empty [] = true
is_empty (c ∷ s) = false

abbrev pub error : Text → ZatcaError
error message = plain_error (text "Error") none message

-- `if (!value) throw …`
abbrev pub require : Text → ZatcaError → Result (Unit {0})
require value e = if is_empty value then err e else ok tt

-- The functions of the platform.
pub record Platform : Type 0 where
  pub base64 : Text → Text
  pub base64_decode : Text → Text
  pub encode_uri_component : Text → Text

unfoldable pub build_otp_headers : Text → Result Headers
unfolding build_base_headers
build_otp_headers [] = err (error (text "OTP is required for compliance certificate issuance"))
build_otp_headers (c ∷ otp) = ok (build_base_headers ++ (text "OTP", c ∷ otp) ∷ [])

module _ (platform : Platform) where
  unfoldable pub build_auth_headers : (binary_security_token api_secret : Text) → Result Headers
  unfolding build_base_headers
  build_auth_headers [] api_secret =
      err (error (text "binarySecurityToken is required to build ZATCA auth headers"))
  build_auth_headers (c ∷ token) [] =
      err (error (text "apiSecret is required to build ZATCA auth headers"))
  build_auth_headers (c ∷ token) (d ∷ secret) = ok (
      build_base_headers
      ++ (text "Authorization", text "Basic " ++ platform.base64 ((c ∷ token) ++ b':' ∷ d ∷ secret))
        ∷ [])

  abbrev cleared : Result Headers → Result Headers
  cleared (ok headers) = ok (headers ++ (text "Clearance-Status", text "1") ∷ [])
  cleared (err e) = err e

  unfoldable pub build_clearance_headers :
      (binary_security_token api_secret : Text) → Result Headers
  unfolding build_auth_headers
  build_clearance_headers token secret = cleared (build_auth_headers token secret)

pub data Method : Type 0 where
  get post : Method

-- One call, as it is handed to `request`.
pub record HttpRequest : Type 0 where
  pub base_url : Text
  pub method : Method
  pub path : Text
  pub query : List (Text × Text)
  pub headers : Headers
  pub body : Option Json

-- The body of a response that is none is `undefined`.
pub record Gateway (W : Type 0) : Type 0 where
  pub send : HttpRequest → Exec W (Option Json)

-- The HTTP client as a gateway: each call meets the surroundings that the state gives it.
unfoldable pub http_gateway : {W : Type 0} → (W → HttpRequest → HttpEnv × W) → Gateway W
unfolding request
http_gateway surroundings = record {
  send = λ call w. ((request (surroundings w call).0).result, (surroundings w call).1);
}

-- `new ZatcaApiError(message, 0)`
abbrev pub api_failure : Text → ZatcaError
api_failure message = failure 0 message
