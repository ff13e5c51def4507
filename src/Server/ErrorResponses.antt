-- ===== src/Server/ErrorResponses.antt =====
-- packages/server/src/middleware/errors.ts: from a thrown value to a response.
pub mod Statuses
use dokhna_tech_zatca.Prelude.{
  ℕ, Bool, true, false, ◌&&◌, ◌||◌, not, Option, none, some, List, [], ◌∷◌, ◌++◌, ltb, leb, eqb,
  if◌then◌else◌, or_else,
}
use dokhna_tech_zatca.Prelude.Text.{Text, text}
use dokhna_tech_zatca.Json.{Json}
use dokhna_tech_zatca.Errors.{
  ApiError, RegistryErrorCode, not_found, conflict, invalid, ZatcaError, validation_error,
  api_error, signing_error, certificate_error, onboarding_error, storage_error, zatca_error,
  server_error, cipher_error, registry_error, auth_error, audit_error, plain_error, not_an_error,
}

pub record ErrorResponse : Type 0 where
  pub status_code : ℕ
  pub name : Text
  pub message : Text
  pub zatca_request_id : Option Text
  pub validation_results : Option Json
  pub upstream_status : Option ℕ
  pub headers : List (Text × Text)

unfoldable pub make_body : ℕ → Text → Text → ErrorResponse
make_body status name message = record {
  status_code = status;
  name = name;
  message = message;
  zatca_request_id = none;
  validation_results = none;
  upstream_status = none;
  headers = [];
}

-- A letter, a digit or an underscore, for the `\b` of the legacy pattern.
unfoldable pub is_word : ℕ → Bool
is_word c =
    (leb b'0' c && leb c b'9')
    || ((leb b'A' c && leb c b'Z') || ((leb b'a' c && leb c b'z') || eqb c b'_'))

abbrev at_word_end : Text → Bool
at_word_end [] = true
at_word_end (c ∷ s) = not (is_word c)

abbrev strip_prefix : Text → Text → Option Text
strip_prefix [] s = some s
strip_prefix (c ∷ p) [] = none
strip_prefix (c ∷ p) (d ∷ s) = elim (eqb c d) [ true ↦ strip_prefix p s | false ↦ none ]

-- `/^Unknown\b/.test(message)`
unfoldable pub says_unknown : Text → Bool
says_unknown message = elim (strip_prefix (text "Unknown") message) [
  | none ↦ false
  | some rest ↦ at_word_end rest
]

unfoldable pub registry_error_status : Option RegistryErrorCode → Text → ℕ
registry_error_status (some not_found) message = 404
registry_error_status (some invalid) message = 400
registry_error_status (some conflict) message = 409
registry_error_status none message = if says_unknown message then 404 else 409

unfoldable pub api_status : ℕ → ℕ
api_status upstream =
    if eqb upstream 401 || eqb upstream 403
    then 502
    else if eqb upstream 429
    then 503
    else if leb 400 upstream && ltb upstream 600
    then upstream
    else 502

abbrev request_id_header : Option Text → List (Text × Text)
request_id_header none = []
request_id_header (some id) = (text "X-Zatca-Request-Id", id) ∷ []

abbrev pub retry_after : Text × Text
retry_after = (text "retry-after", text "30")

unfoldable pub api_response : ApiError → ErrorResponse
unfolding api_status
api_response e = record {
  status_code = api_status e.status_code;
  name = text "ZatcaApiError";
  message = e.message;
  zatca_request_id = e.request_id;
  validation_results = e.validation_results;
  upstream_status = some e.status_code;
  headers =
      request_id_header e.request_id
      ++ (if eqb (api_status e.status_code) 503 then retry_after ∷ [] else []);
}

unfoldable pub plain_status : Option ℕ → ℕ
plain_status none = 500
plain_status (some stamped) = if leb 400 stamped && ltb stamped 600 then stamped else 500

unfoldable pub map_error_to_response : ZatcaError → ErrorResponse
unfolding make_body registry_error_status api_response plain_status
map_error_to_response (auth_error hint message) = make_body hint (text "ZatcaAuthError") message
map_error_to_response (validation_error message) =
    make_body 400 (text "ZatcaValidationError") message
map_error_to_response (registry_error code message) =
    make_body (registry_error_status code message) (text "ZatcaRegistryError") message
map_error_to_response (cipher_error message) = make_body 500 (text "ZatcaCipherError") message
map_error_to_response (audit_error message) = make_body 500 (text "ZatcaAuditError") message
map_error_to_response (api_error e) = api_response e
map_error_to_response (onboarding_error message) =
    make_body 422 (text "ZatcaOnboardingError") message
map_error_to_response (signing_error message) = make_body 500 (text "ZatcaSigningError") message
map_error_to_response (certificate_error message) =
    make_body 500 (text "ZatcaCertificateError") message
map_error_to_response (storage_error message) = make_body 500 (text "ZatcaStorageError") message
map_error_to_response (server_error hint message) =
    make_body (or_else hint 500) (text "ZatcaServerError") message
map_error_to_response (zatca_error message) = make_body 500 (text "ZatcaError") message
map_error_to_response (plain_error name stamped message) =
    make_body (plain_status stamped) (text "InternalServerError") message
map_error_to_response not_an_error =
    make_body 500 (text "InternalServerError") (text "Unknown error")
