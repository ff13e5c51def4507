-- ===== src/Onboarding/Onboard/Gate.antt =====
-- Production credentials are asked for only behind a compliance run that passed.
use dokhna_tech_zatca.Prelude.{
  ◌≡◌, ◌⊎◌, inl, inr, refl, ap, ◌∙◌, sym, subst, Option, [], arith, All,
}
use dokhna_tech_zatca.Prelude.Text.{Text}
use dokhna_tech_zatca.Prelude.Exec.{ok, err, Result-cases, bind-ok, bind-ran, ok-injective}
use dokhna_tech_zatca.Errors.{Exec}
use dokhna_tech_zatca.Storage.Internal.{create_internal_memory_storage}
use dokhna_tech_zatca.Issue.{Builders}
use dokhna_tech_zatca.Api.{Platform, Gateway}
use dokhna_tech_zatca.Api.Certificates.{IssuedCsid, issue_csids}
use dokhna_tech_zatca.Onboarding.Scenarios.{ScenarioInput}
use dokhna_tech_zatca.Onboarding.Runner.{
  RunComplianceTestsArgs, ComplianceProgressEvent, OverallStatus, passed, failed,
  ComplianceTestReport, run_compliance_tests, require_credentials,
}
use dokhna_tech_zatca.Onboarding.Runner.Report.{Rows, six_kinds, run_compliance_tests_report}
use dokhna_tech_zatca.Onboarding.Onboard.{
  Crypto, OnboardArgs, OnboardingResult, compliance_failed, empty_storage, run_tests, test_args,
  prepare, exchange, conclude, onboard,
}

module _ {W : Type 0} (builders : Builders ScenarioInput) (platform : Platform)
    (gateway : Gateway W) (crypto : Crypto W)
    (on_progress : Option (ComplianceProgressEvent → Exec W (Unit {0}))) where
  -- With a report that failed, the world is left as the tests have left it.
  pub onboard_failed :
      (args : OnboardArgs) (made : Text × Text × IssuedCsid) (report : ComplianceTestReport)
      (w w' w'' : W)
      → prepare builders platform gateway crypto on_progress args w ≡ (ok made, w')
      → run_tests builders platform gateway crypto on_progress
          (test_args builders platform gateway crypto on_progress args made.0 made.2)
          w'
        ≡ (ok report, w'')
      → report.overall_status ≡ failed
      → onboard builders platform gateway crypto on_progress args w
        ≡ (err (compliance_failed report), w'')
  unfolding onboard conclude
  onboard_failed args made report w w' w'' prepared tested bad =
      bind-ran (prepare builders platform gateway crypto on_progress args) _ w prepared
      ∙ bind-ran
          (run_tests builders platform gateway crypto on_progress
            (test_args builders platform gateway crypto on_progress args made.0 made.2))
          _ w' tested
      ∙ rw (conclude, bad) refl

  tests_report :
      (args : RunComplianceTestsArgs) (w : W) (report : ComplianceTestReport)
      → (run_tests builders platform gateway crypto on_progress args w).0 ≡ ok report
      → Rows six_kinds report.results
        × ((report.overall_status ≡ passed) → All (λ r. r.errors ≡ []) report.results)
  unfolding run_tests run_compliance_tests
  tests_report args w report h =
      elim (Result-cases (
        require_credentials create_internal_memory_storage builders platform gateway on_progress
          args)) [
            | inr (e, refused) ↦ absurd (ground arith)
            | inl (_, given) ↦
                let (found, done, rows, overall) =
                  run_compliance_tests_report create_internal_memory_storage builders platform
                    gateway on_progress args empty_storage w given in
                let same : found ≡ report = ok-injective (sym done ∙ h) in
                subst
                  (λ r.
                    Rows six_kinds r.results
                    × ((r.overall_status ≡ passed) → All (λ x. x.errors ≡ []) r.results))
                  same (rows, overall.0)
          ]

  concluded :
      (args : OnboardArgs) (private_key csr : Text) (compliance : IssuedCsid)
      (report : ComplianceTestReport) (w : W) (result : OnboardingResult)
      → (conclude builders platform gateway crypto on_progress args private_key csr compliance
          report w).0
        ≡ ok result
      → (report.overall_status ≡ passed) × (result.compliance_test_report ≡ report)
  unfolding conclude exchange
  concluded args private_key csr compliance report w result h =
      elim (status_cases report.overall_status) [
        | inr bad ↦ absurd (ground arith)
        | inl good ↦
            let (csids, got, made) =
              bind-ok
                (issue_csids platform gateway (record {
                  compliance_request_id = compliance.request_id;
                  binary_security_token = compliance.binary_security_token;
                  api_secret = compliance.api_secret;
                  environment = args.environment;
                }))
                _ w (passed_exchange good) in
            (good, ap (λ r. r.compliance_test_report) (sym (ok-injective made)))
      ]
    where
      passed_exchange :
          report.overall_status ≡ passed
          → (exchange builders platform gateway crypto on_progress args private_key csr compliance
              report w).0
            ≡ ok result
      passed_exchange good = ground arith

      status_cases : (s : OverallStatus) → (s ≡ passed) ⊎ (s ≡ failed)
      status_cases passed = inl refl
      status_cases failed = inr refl

  -- Where `onboard` returns, its report has one row for each of the six kinds, in the fixed order,
  -- none of which lists an error, and its status is `passed`.
  pub onboard_ok :
      (args : OnboardArgs) (w : W) (result : OnboardingResult)
      → (onboard builders platform gateway crypto on_progress args w).0 ≡ ok result
      → (result.compliance_test_report.overall_status ≡ passed)
        × Rows six_kinds result.compliance_test_report.results
        × All (λ r. r.errors ≡ []) result.compliance_test_report.results
  unfolding onboard
  onboard_ok args w result h =
      let (made, prepared, h1) =
        bind-ok (prepare builders platform gateway crypto on_progress args) _ w h in
      let (report, tested, h2) =
        bind-ok
          (run_tests builders platform gateway crypto on_progress
            (test_args builders platform gateway crypto on_progress args made.0 made.2))
          _ _ h1 in
      let (good, same) = concluded args made.0 made.1 made.2 report _ result h2 in
      let (rows, clean) =
        tests_report (test_args builders platform gateway crypto on_progress args made.0 made.2)
          (prepare builders platform gateway crypto on_progress args w).1 report tested in
      subst
        (λ r.
          (r.overall_status ≡ passed)
          × Rows six_kinds r.results
          × All (λ x. x.errors ≡ []) r.results)
        (sym same) (good, rows, clean good)
