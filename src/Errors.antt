-- ===== src/Errors.antt =====
-- The error classes of packages/core/src/types/errors.ts and packages/server/src/errors.ts.
-- A thrown value is one of these; `plain_error` is any other Error, with its name and the
-- `statusCode` that a plugin may have stamped on it, `not_an_error` any other value.
-- The `cause` chain is not modelled: nothing in the code reads it.
use dokhna_tech_zatca.Prelude.{ℕ, Option, none, some}
use dokhna_tech_zatca.Prelude.Text.{Text}
use dokhna_tech_zatca.Prelude.Exec.{Result as ResultOf, Exec as ExecOf}
use dokhna_tech_zatca.Json.{Json}

pub record ApiError : Type 0 where
  pub message : Text
  pub status_code : ℕ
  pub validation_results : Option Json
  pub request_id : Option Text
  pub raw_response : Option Json

pub data RegistryErrorCode : Type 0 where
  not_found conflict invalid : RegistryErrorCode

pub data ZatcaError : Type 0 where
  validation_error : Text → ZatcaError
  api_error : ApiError → ZatcaError
  signing_error : Text → ZatcaError
  certificate_error : Text → ZatcaError
  onboarding_error : Text → ZatcaError
  storage_error : Text → ZatcaError
  zatca_error : Text → ZatcaError
  server_error : (status_hint : Option ℕ) → Text → ZatcaError
  cipher_error : Text → ZatcaError
  registry_error : (code : Option RegistryErrorCode) → Text → ZatcaError
  auth_error : (status_hint : ℕ) → Text → ZatcaError
  audit_error : Text → ZatcaError
  plain_error : (name : Text) → (status_code : Option ℕ) → Text → ZatcaError
  not_an_error : ZatcaError

-- `error.message`, where the thrown value is an Error.
unfoldable pub message_of : ZatcaError → Option Text
message_of (validation_error m) = some m
message_of (api_error e) = some e.message
message_of (signing_error m) = some m
message_of (certificate_error m) = some m
message_of (onboarding_error m) = some m
message_of (storage_error m) = some m
message_of (zatca_error m) = some m
message_of (server_error status m) = some m
message_of (cipher_error m) = some m
message_of (registry_error code m) = some m
message_of (auth_error status m) = some m
message_of (audit_error m) = some m
message_of (plain_error name status m) = some m
message_of not_an_error = none

abbrev pub Result : Type 0 → Type 0
Result A = ResultOf ZatcaError A

abbrev pub Exec : Type 0 → Type 0 → Type 0
Exec S A = ExecOf ZatcaError S A
