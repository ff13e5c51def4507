-- ===== src/Tests/Onboarding.antt =====
-- Concrete runs of the onboarding, in the library and on the server.
use dokhna_tech_zatca.Prelude.{true, suc, ℕ, ◌≡◌, ◌↔◌, refl, none, some, [], ◌∷◌, All}
use dokhna_tech_zatca.Prelude.Eq.{list_beq}
use dokhna_tech_zatca.Prelude.Text.{Text, text, text_eq}
use dokhna_tech_zatca.Prelude.Exec.{ok, err, pure}
use dokhna_tech_zatca.Json.{Json, str, obj, field, end, get_field}
use dokhna_tech_zatca.Storage.Internal.{
  create_internal_memory_storage, increment_counter, get_previous_hash, record_invoice,
}
use dokhna_tech_zatca.Issue.{
  Builders, issue_phase2, reserve, finish, assert_scope, issue_simplified_tax_invoice,
  issue_standard_tax_invoice, issue_simplified_credit_note, issue_standard_credit_note,
  issue_simplified_debit_note, issue_standard_debit_note,
}
use dokhna_tech_zatca.Server.Tenants.{sandbox, state_eq}
use dokhna_tech_zatca.Api.{Platform, Gateway, build_auth_headers, build_otp_headers}
use dokhna_tech_zatca.Api.Certificates.{issue_compliance_certificate, issue_csids, issued_csid}
use dokhna_tech_zatca.Api.Invoices.{check_invoice_compliance}
use dokhna_tech_zatca.Onboarding.Scenarios.{ScenarioInput}
use dokhna_tech_zatca.Onboarding.Runner.{
  ComplianceTestReport, passed, run_compliance_tests, run_scenarios, run_scenario, scenarios,
  try_scenario, fire_latest_progress, classify_response, RunComplianceTestsArgs,
}
use dokhna_tech_zatca.Onboarding.Runner.Report.{Rows, six_kinds, run_compliance_tests_report}
use dokhna_tech_zatca.Onboarding.Onboard.{
  Crypto, OnboardArgs, OnboardingResult, prepare, exchange, conclude, run_tests, onboard,
  empty_storage, with_compliance_certificate,
}
use dokhna_tech_zatca.Onboarding.Onboard.Gate.{onboard_ok}
use dokhna_tech_zatca.Tests.Data.{shop_egs}

abbrev pub platform : Platform
platform = record { base64 = λ s. s; base64_decode = λ s. s; encode_uri_component = λ s. s }

abbrev token : Text
token = b't' ∷ []

-- The one answer of the gateway, which counts its calls.
abbrev credentials : Json
credentials = obj (
    field (text "binarySecurityToken") (str token)
      (field (text "secret") (str token) (field (text "requestID") (str token) end)))

abbrev pub gateway : Gateway ℕ
gateway = record { send = λ call n. (ok (some credentials), suc n) }

abbrev pub builders : Builders ScenarioInput
builders = record {
  build = λ input s.
      ok
        (record { invoice_xml = token; signed_xml = token; invoice_hash = token; qr_code = token });
  build_phase1 = λ input. ok (record { invoice_xml = token; qr_code = token });
}

abbrev pub crypto : Crypto ℕ
crypto = record {
  skip_openssl_probe = true;
  ensure_openssl = pure tt;
  generate_key_pair = pure token;
  generate_csr = λ p. pure token;
}

abbrev args : OnboardArgs
args = record {
  egs_info = shop_egs;
  otp = token;
  environment = sandbox;
  solution_name = token;
  readings = λ kind. record { submitted_at = 1; random_uuid = token; issued_at = 2 };
}

abbrev runner_args : RunComplianceTestsArgs
runner_args = record {
  egs_info = shop_egs;
  environment = sandbox;
  signing = record { certificate = token; private_key = token };
  binary_security_token = token;
  api_secret = token;
  scope = none;
  date_overrides = record { issue_date = none; issue_time = none };
  readings = λ kind. record { submitted_at = 1; random_uuid = token; issued_at = 2 };
}

run_compliance_tests_report_example :
    (report : ComplianceTestReport) × ((run_compliance_tests create_internal_memory_storage builders
        platform gateway none runner_args empty_storage 0).0
      ≡ ok report)
    × Rows six_kinds report.results
    × ((report.overall_status ≡ passed) ↔ All (λ r. r.errors ≡ []) report.results)
run_compliance_tests_report_example =
    run_compliance_tests_report create_internal_memory_storage builders platform gateway none
      runner_args empty_storage 0 refl

abbrev ran : ℕ → OnboardingResult
ran n = elim (onboard builders platform gateway crypto none args 0).0 [
  | ok result ↦ result
  | err e ↦ record {
    private_key = [];
    csr = [];
    compliance_certificate = [];
    compliance_binary_security_token = [];
    compliance_api_secret = [];
    compliance_request_id = [];
    production_certificate = [];
    production_binary_security_token = [];
    production_api_secret = [];
    production_request_id = [];
    compliance_test_report = record {
      overall_status = passed;
      results = [];
      final_invoice_hash = [];
    };
  }
]

onboards : (onboard builders platform gateway crypto none args 0).0 ≡ ok (ran 0)
unfolding onboard prepare conclude exchange run_tests run_compliance_tests scenarios run_scenarios
    run_scenario try_scenario fire_latest_progress classify_response issue_simplified_tax_invoice
    issue_standard_tax_invoice issue_simplified_credit_note issue_standard_credit_note
    issue_simplified_debit_note issue_standard_debit_note issue_phase2 reserve finish assert_scope
    create_internal_memory_storage increment_counter get_previous_hash record_invoice
    check_invoice_compliance issue_compliance_certificate issue_csids issued_csid build_otp_headers
    build_auth_headers get_field text list_beq with_compliance_certificate
onboards = refl

onboard_ok_example :
    ((ran 0).compliance_test_report.overall_status ≡ passed)
    × Rows six_kinds (ran 0).compliance_test_report.results
    × All (λ r. r.errors ≡ []) (ran 0).compliance_test_report.results
onboard_ok_example = onboard_ok builders platform gateway crypto none args 0 (ran 0) onboards
