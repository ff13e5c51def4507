-- ===== src/Onboarding/Onboard/Keeps.antt =====
-- What the gateway, the crypto calls and the progress hook leave as it is, an onboarding leaves as
-- it is.
use dokhna_tech_zatca.Prelude.{inl, inr, true, false, Option}
use dokhna_tech_zatca.Prelude.Text.{Text, text}
use dokhna_tech_zatca.Prelude.Exec.{ok, Result-cases, pure, throw, Keeps, bind-Keeps, lift-Keeps}
use dokhna_tech_zatca.Errors.{onboarding_error, Exec}
use dokhna_tech_zatca.Storage.Internal.{create_internal_memory_storage}
use dokhna_tech_zatca.Issue.{Builders}
use dokhna_tech_zatca.Api.{require, Platform, HttpRequest, Gateway}
use dokhna_tech_zatca.Api.Certificates.{IssuedCsid, IssueComplianceCertificateParams}
use dokhna_tech_zatca.Api.Keeps.{issue_compliance_certificate-Keeps, issue_csids-Keeps}
use dokhna_tech_zatca.Onboarding.Scenarios.{ScenarioInput}
use dokhna_tech_zatca.Onboarding.Runner.{
  RunComplianceTestsArgs, ComplianceProgressEvent, ComplianceTestReport, OverallStatus, passed,
  failed,
}
use dokhna_tech_zatca.Onboarding.Runner.Keeps.{HookKeeps, run_compliance_tests-Keeps}
use dokhna_tech_zatca.Onboarding.Onboard.{
  CsrParams, Crypto, OnboardArgs, compliance_failed, empty_storage, wrapped, probe, run_tests,
  test_args, prepare, exchange, conclude, onboard, to_csr_egs_info, is_production,
}

wrapped-Keeps :
    {W A : Type 0} {P : W → Type 0} (message : Text) (m : Exec W A)
    → Keeps P m
    → Keeps P (wrapped message m)
wrapped-Keeps message m keeps = record {
  kept = λ w h. elim (Result-cases (m w).0) [
    | inl (a, good) ↦ rw (wrapped, good) (keeps.kept w h)
    | inr (e, bad) ↦ rw (wrapped, bad) (keeps.kept w h)
  ];
}

module _ {W : Type 0} {P : W → Type 0} (builders : Builders ScenarioInput) (platform : Platform)
    (gateway : Gateway W) (crypto : Crypto W)
    (on_progress : Option (ComplianceProgressEvent → Exec W (Unit {0})))
    (send-Keeps : (call : HttpRequest) → Keeps P (gateway.send call))
    (ensure_openssl-Keeps : Keeps P crypto.ensure_openssl)
    (generate_key_pair-Keeps : Keeps P crypto.generate_key_pair)
    (generate_csr-Keeps : (p : CsrParams) → Keeps P (crypto.generate_csr p))
    (hook-Keeps : HookKeeps P on_progress) where
  probe-Keeps : Keeps P (probe builders platform gateway crypto on_progress)
  probe-Keeps =
      elim crypto.skip_openssl_probe
        as (λ b. Keeps P (elim b [ true ↦ pure tt | false ↦ crypto.ensure_openssl ])) [
          | true ↦ lift-Keeps (ok tt)
          | false ↦ ensure_openssl-Keeps
        ]

  prepare-Keeps :
      (args : OnboardArgs) → Keeps P (prepare builders platform gateway crypto on_progress args)
  unfolding prepare
  prepare-Keeps args =
      bind-Keeps
        (lift-Keeps (require args.otp (onboarding_error (text "onboard requires a 6-digit OTP."))))
        (λ _.
          bind-Keeps
            (lift-Keeps (
              require args.solution_name
                (onboarding_error (text "onboard requires a solutionName (BSN)."))))
            (λ _.
              bind-Keeps
                (wrapped-Keeps
                  (text "OpenSSL CLI is required for onboarding but was not found on PATH.")
                  (probe builders platform gateway crypto on_progress) probe-Keeps)
                (λ _.
                  bind-Keeps
                    (wrapped-Keeps (text "Failed to generate the secp256k1 keypair.")
                      crypto.generate_key_pair generate_key_pair-Keeps)
                    (λ private_key.
                      let p : CsrParams = record {
                        egs_info = to_csr_egs_info args.egs_info private_key;
                        production = is_production args.environment;
                        solution_name = args.solution_name;
                      } in
                      bind-Keeps
                        (wrapped-Keeps (text "Failed to generate the CSR.") (crypto.generate_csr p)
                          (generate_csr-Keeps p))
                        (λ csr.
                          let q : IssueComplianceCertificateParams = record {
                            csr = csr;
                            otp = args.otp;
                            environment = args.environment;
                          } in
                          bind-Keeps
                            (issue_compliance_certificate-Keeps platform gateway send-Keeps q)
                            (λ compliance. lift-Keeps (ok (private_key, csr, compliance))))))))

  run_tests-Keeps :
      (args : RunComplianceTestsArgs)
      → Keeps P (run_tests builders platform gateway crypto on_progress args)
  unfolding run_tests
  run_tests-Keeps args = record {
    kept = λ w h.
        run_compliance_tests-Keeps create_internal_memory_storage builders platform gateway
          on_progress args send-Keeps hook-Keeps empty_storage w h;
  }

  exchange-Keeps :
      (args : OnboardArgs) (private_key csr : Text) (compliance : IssuedCsid)
      (report : ComplianceTestReport)
      → Keeps P (
          exchange builders platform gateway crypto on_progress args private_key csr compliance
            report)
  unfolding exchange
  exchange-Keeps args private_key csr compliance report =
      bind-Keeps
        (issue_csids-Keeps platform gateway send-Keeps (record {
          compliance_request_id = compliance.request_id;
          binary_security_token = compliance.binary_security_token;
          api_secret = compliance.api_secret;
          environment = args.environment;
        }))
        (λ csids. record { kept = λ w h. h })

  conclude-Keeps :
      (args : OnboardArgs) (private_key csr : Text) (compliance : IssuedCsid)
      (report : ComplianceTestReport)
      → Keeps P (
          conclude builders platform gateway crypto on_progress args private_key csr compliance
            report)
  unfolding conclude
  conclude-Keeps args private_key csr compliance report = by_status report.overall_status
    where
      by_status :
          (s : OverallStatus)
          → Keeps P (elim s [
            | failed ↦ throw (compliance_failed report)
            | passed ↦
                exchange builders platform gateway crypto on_progress args private_key csr
                  compliance report
          ])
      by_status passed = exchange-Keeps args private_key csr compliance report
      by_status failed = record { kept = λ w h. h }

  pub onboard-Keeps :
      (args : OnboardArgs) → Keeps P (onboard builders platform gateway crypto on_progress args)
  unfolding onboard
  onboard-Keeps args = bind-Keeps (prepare-Keeps args) (λ made.
      bind-Keeps
        (run_tests-Keeps
          (test_args builders platform gateway crypto on_progress args made.0 made.2))
        (λ report. conclude-Keeps args made.0 made.1 made.2 report))
