-- ===== src/Onboarding/Onboard.antt =====
-- packages/core/src/onboarding/onboard.ts. Interfaces: the probe of OpenSSL, the key generator and
-- the CSR generator, over the world that the gateway acts on too; an error's `cause` is dropped.
pub mod Gate
pub mod Keeps
use dokhna_tech_zatca.Prelude.{
  ℕ, Bool, true, false, not, Option, none, some, List, [], ◌∷◌, ◌++◌, keep, map,
}
use dokhna_tech_zatca.Prelude.Text.{Text, text}
use dokhna_tech_zatca.Prelude.Exec.{ok, err, pure, throw, lift, ◌>>=◌, ◌>>◌}
use dokhna_tech_zatca.Errors.{ZatcaError, onboarding_error, Result, Exec}
use dokhna_tech_zatca.Egs.{EgsUnitInfo}
use dokhna_tech_zatca.Storage.{InvoiceKind}
use dokhna_tech_zatca.Storage.Internal.{InternalStorage, create_internal_memory_storage}
use dokhna_tech_zatca.Issue.{Builders}
use dokhna_tech_zatca.Issue.Dispatch.{kind_name}
use dokhna_tech_zatca.Server.Tenants.{ZatcaEnvironment, sandbox, simulation, production}
use dokhna_tech_zatca.Api.{is_empty, require, Platform, Gateway}
use dokhna_tech_zatca.Api.Certificates.{IssuedCsid, issue_compliance_certificate, issue_csids}
use dokhna_tech_zatca.Onboarding.Scenarios.{ScenarioInput}
use dokhna_tech_zatca.Onboarding.Runner.{
  Readings, RunComplianceTestsArgs, ComplianceProgressEvent, ComplianceTestScenarioResult,
  OverallStatus, passed, failed, ComplianceTestReport, run_compliance_tests,
}

-- What `toCsrEgsInfo` takes of the EGS.
pub record CsrEgsInfo : Type 0 where
  pub custom_id : Text
  pub model : Text
  pub vat_name : Text
  pub vat_number : Text
  pub branch_name : Text
  pub branch_industry : Text
  pub city : Text
  pub street : Text
  pub building : Text
  pub private_key : Text

pub record CsrParams : Type 0 where
  pub egs_info : CsrEgsInfo
  pub production : Bool
  pub solution_name : Text

pub record Crypto (W : Type 0) : Type 0 where
  pub skip_openssl_probe : Bool
  pub ensure_openssl : Exec W (Unit {0})
  pub generate_key_pair : Exec W Text
  pub generate_csr : CsrParams → Exec W Text

-- `egs_info.certificate` is not read.
pub record OnboardArgs : Type 0 where
  pub egs_info : EgsUnitInfo
  pub otp : Text
  pub environment : ZatcaEnvironment
  pub solution_name : Text
  pub readings : InvoiceKind → Readings

pub record OnboardingResult : Type 0 where
  pub private_key : Text
  pub csr : Text
  pub compliance_certificate : Text
  pub compliance_binary_security_token : Text
  pub compliance_api_secret : Text
  pub compliance_request_id : Text
  pub production_certificate : Text
  pub production_binary_security_token : Text
  pub production_api_secret : Text
  pub production_request_id : Text
  pub compliance_test_report : ComplianceTestReport

unfoldable pub to_csr_egs_info : EgsUnitInfo → Text → CsrEgsInfo
to_csr_egs_info info private_key = record {
  custom_id = info.custom_id;
  model = info.model;
  vat_name = info.vat_name;
  vat_number = info.vat_number;
  branch_name = info.branch_name;
  branch_industry = info.branch_industry;
  city = info.location.city_name;
  street = info.location.street;
  building = info.location.building;
  private_key = private_key;
}

unfoldable pub with_compliance_certificate :
    EgsUnitInfo → (private_key certificate api_secret : Text) → EgsUnitInfo
with_compliance_certificate info private_key certificate api_secret = record info {
  certificate = some (record {
    private_key = some private_key;
    csr = none;
    compliance_certificate = some certificate;
    compliance_api_secret = some api_secret;
    production_certificate = none;
    production_api_secret = none;
  });
}

-- `parts.join(separator)`
unfoldable pub join : Text → List Text → Text
join separator [] = []
join separator (part ∷ []) = part
join separator (part ∷ other ∷ parts) = part ++ (separator ++ join separator (other ∷ parts))

abbrev failure_of : ComplianceTestScenarioResult → Text
failure_of r = kind_name r.invoice_kind ++ (text ": " ++ join (text "; ") r.errors)

unfoldable pub compliance_failed : ComplianceTestReport → ZatcaError
unfolding join
compliance_failed report = onboarding_error (
    text "Compliance tests failed — production CSID not issued. Failures: "
    ++ join (text " | ") (map failure_of (keep (λ r. not r.passed) report.results)))

abbrev is_production : ZatcaEnvironment → Bool
is_production production = true
is_production _ = false

abbrev pub empty_storage : InternalStorage
empty_storage = record { counters = []; previous_hash = []; records = [] }

module _ {W A : Type 0} where
  -- `try { … } catch (cause) { throw new ZatcaOnboardingError(message, cause) }`
  abbrev wrapped : Text → Exec W A → Exec W A
  wrapped message m w = elim (m w).0 [
    | ok a ↦ (ok a, (m w).1)
    | err e ↦ (err (onboarding_error message), (m w).1)
  ]

module _ {W : Type 0} (builders : Builders ScenarioInput) (platform : Platform)
    (gateway : Gateway W) (crypto : Crypto W)
    (on_progress : Option (ComplianceProgressEvent → Exec W (Unit {0}))) where
  abbrev probe : Exec W (Unit {0})
  probe = elim crypto.skip_openssl_probe [ true ↦ pure tt | false ↦ crypto.ensure_openssl ]

  -- The runner's own storage is made for this run and left behind.
  unfoldable pub run_tests : RunComplianceTestsArgs → Exec W ComplianceTestReport
  unfolding run_compliance_tests
  run_tests args w =
      let ran =
        run_compliance_tests create_internal_memory_storage builders platform gateway on_progress
          args empty_storage w in
      (ran.0, ran.1.1)

  abbrev pub test_args : OnboardArgs → Text → IssuedCsid → RunComplianceTestsArgs
  test_args args private_key compliance = record {
    egs_info =
        with_compliance_certificate args.egs_info private_key compliance.issued_certificate
          compliance.api_secret;
    environment = args.environment;
    signing = record { certificate = compliance.issued_certificate; private_key = private_key };
    binary_security_token = compliance.binary_security_token;
    api_secret = compliance.api_secret;
    scope = none;
    date_overrides = record { issue_date = none; issue_time = none };
    readings = args.readings;
  }

  -- Steps 1 to 4: the key, the CSR and the compliance certificate.
  unfoldable pub prepare : OnboardArgs → Exec W (Text × Text × IssuedCsid)
  prepare args = do
    lift (require args.otp (onboarding_error (text "onboard requires a 6-digit OTP.")))
    lift (
        require args.solution_name
          (onboarding_error (text "onboard requires a solutionName (BSN).")))
    wrapped (text "OpenSSL CLI is required for onboarding but was not found on PATH.") probe
    private_key ←
        wrapped (text "Failed to generate the secp256k1 keypair.") crypto.generate_key_pair
    csr ← wrapped (text "Failed to generate the CSR.") (
        crypto.generate_csr (record {
          egs_info = to_csr_egs_info args.egs_info private_key;
          production = is_production args.environment;
          solution_name = args.solution_name;
        }))
    compliance ←
        issue_compliance_certificate platform gateway
          (record { csr = csr; otp = args.otp; environment = args.environment })
    pure (private_key, csr, compliance)

  -- Step 6, and the result.
  unfoldable pub exchange :
      OnboardArgs
      → (private_key csr : Text) → IssuedCsid
      → ComplianceTestReport
      → Exec W OnboardingResult
  exchange args private_key csr compliance report = do
    csids ← issue_csids platform gateway (record {
      compliance_request_id = compliance.request_id;
      binary_security_token = compliance.binary_security_token;
      api_secret = compliance.api_secret;
      environment = args.environment;
    })
    pure (record {
      private_key = private_key;
      csr = csr;
      compliance_certificate = compliance.issued_certificate;
      compliance_binary_security_token = compliance.binary_security_token;
      compliance_api_secret = compliance.api_secret;
      compliance_request_id = compliance.request_id;
      production_certificate = csids.issued_certificate;
      production_binary_security_token = csids.binary_security_token;
      production_api_secret = csids.api_secret;
      production_request_id = csids.request_id;
      compliance_test_report = report;
    })

  -- Behind the report of step 5.
  unfoldable pub conclude :
      OnboardArgs
      → (private_key csr : Text) → IssuedCsid
      → ComplianceTestReport
      → Exec W OnboardingResult
  unfolding exchange compliance_failed
  conclude args private_key csr compliance report = elim report.overall_status [
    | failed ↦ throw (compliance_failed report)
    | passed ↦ exchange args private_key csr compliance report
  ]

  unfoldable pub onboard : OnboardArgs → Exec W OnboardingResult
  unfolding prepare conclude run_tests
  onboard args = do
    made ← prepare args
    report ← run_tests (test_args args made.0 made.2)
    conclude args made.0 made.1 made.2 report
