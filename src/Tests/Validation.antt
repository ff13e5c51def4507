-- ===== src/Tests/Validation.antt =====
-- Two validated scopes, and a request that the gateway refuses.
use dokhna_tech_zatca.Prelude.{◌⊎◌, ◌≡◌, ◌≢◌, refl, ap, take, none, [], ◌∷◌, arith}
use dokhna_tech_zatca.Prelude.Text.{text}
use dokhna_tech_zatca.Prelude.Exec.{err, ok}
use dokhna_tech_zatca.Storage.{TenantScope}
use dokhna_tech_zatca.Storage.Memory.{default_formatter, increment_counter}
use dokhna_tech_zatca.Storage.Memory.Isolation.{SameView}
use dokhna_tech_zatca.Storage.Memory.Isolation
use dokhna_tech_zatca.Validation.{
  as_vat_number, as_egs_uuid, is_vat_number, is_uuid_v4, matches, vat_number_regex, uuid_v4_regex,
}
use dokhna_tech_zatca.Validation.Plain.{IsValidated, validated-SameView}
use dokhna_tech_zatca.Http.{
  HttpEnv, Response, status_error, prepared, request, attempts, attempt_once, read_failure,
  read_body, decode_body, success_statuses, is_retryable_status,
}
use dokhna_tech_zatca.Http.Errors.{IsApiError, request-IsApiError}
use dokhna_tech_zatca.Tests.Data.{empty, flaky}

abbrev bakery : TenantScope
bakery = record {
  vat_number = text "310000000000003";
  egs_uuid = text "123e4567-e89b-42d3-a456-426614174000";
}

abbrev florist : TenantScope
florist = record bakery { vat_number = text "300000000000003" }

bakery-IsValidated : IsValidated bakery
unfolding as_vat_number as_egs_uuid is_vat_number is_uuid_v4 matches vat_number_regex uuid_v4_regex
    text
bakery-IsValidated = record {
  vat_input = bakery.vat_number;
  egs_input = bakery.egs_uuid;
  vat = refl;
  egs = refl;
}

florist-IsValidated : IsValidated florist
unfolding as_vat_number as_egs_uuid is_vat_number is_uuid_v4 matches vat_number_regex uuid_v4_regex
    text
florist-IsValidated = record {
  vat_input = florist.vat_number;
  egs_input = florist.egs_uuid;
  vat = refl;
  egs = refl;
}

bakery_is_not_florist : bakery ≢ florist
unfolding text
bakery_is_not_florist e =
    let starts : b'3' ∷ b'1' ∷ [] ≡ b'3' ∷ b'0' ∷ [] = ap (λ scope. take 2 scope.vat_number) e in
    absurd (ground arith)

validated-SameView_example :
    SameView florist empty (increment_counter default_formatter bakery empty).1
validated-SameView_example =
    validated-SameView bakery florist bakery-IsValidated florist-IsValidated bakery_is_not_florist
      Isolation.increment

abbrev bad_request : Response
bad_request = record { status = 400; header = λ n. none; body = ok [] }

abbrev refused : HttpEnv
refused = record flaky { fetch = λ n. ok bad_request }

request-IsApiError_example :
    IsApiError (status_error refused bad_request none)
    ⊎ (prepared refused ≡ err (status_error refused bad_request none))
unfolding prepared request attempts attempt_once read_failure read_body decode_body success_statuses
    is_retryable_status
request-IsApiError_example = request-IsApiError refused (status_error refused bad_request none) refl
