-- ===== src/Tests/OnboardingRoute.antt =====
-- A concrete run of the onboarding on the server.
use dokhna_tech_zatca.Prelude.{ℕ, true, suc, none, some, [], ◌∷◌}
use dokhna_tech_zatca.Prelude.Text.{Text, text_eq}
use dokhna_tech_zatca.Prelude.Exec.{ok, pure, ◌>>=◌, bind-Keeps, lift-Keeps}
use dokhna_tech_zatca.Errors.{Exec}
use dokhna_tech_zatca.Server.Tenants.{sandbox}
use dokhna_tech_zatca.Server.Tenants.Store.{new_record}
use dokhna_tech_zatca.Server.Vault.{SecretCipher}
use dokhna_tech_zatca.Server.Audit.Log.{system}
use dokhna_tech_zatca.Onboarding.Runner.{Readings, ComplianceProgressEvent, passed}
use dokhna_tech_zatca.Onboarding.Onboard.{OnboardingResult}
use dokhna_tech_zatca.Storage.{simplified_tax_invoice}
use dokhna_tech_zatca.Server.Onboarding.{
  ServerState, OnboardInput, Clock, RunOnboardingArgs, run_onboarding,
}
use dokhna_tech_zatca.Server.Onboarding.Live.{record_onboarding_progress-Live}
use dokhna_tech_zatca.Server.Onboarding.Default.{core_onboard, core_onboarding_settles}
use dokhna_tech_zatca.Tests.Onboarding.{builders, platform, gateway, crypto}
use dokhna_tech_zatca.Server.Onboarding.Settled.{Ended, run_onboarding_settles}
use dokhna_tech_zatca.Tests.Tenants.{ref, input}

abbrev token : Text
token = b't' ∷ []

abbrev cipher : SecretCipher ℕ (ℕ × Text)
cipher = record { encrypt = λ s c. (ok (c, s), suc c); decrypt = λ x. ok x.1 }

abbrev State : Type 0
State = ServerState ℕ (ℕ × Text) ℕ

abbrev event : ComplianceProgressEvent
event = record {
  scenario_name = token;
  invoice_kind = simplified_tax_invoice;
  passed = true;
  errors = [];
  completed_count = 1;
  total_count = 6;
}

abbrev result : OnboardingResult
result = record {
  private_key = token;
  csr = token;
  compliance_certificate = token;
  compliance_binary_security_token = token;
  compliance_api_secret = token;
  compliance_request_id = token;
  production_certificate = token;
  production_binary_security_token = token;
  production_api_secret = token;
  production_request_id = token;
  compliance_test_report = record {
    overall_status = passed;
    results = [];
    final_invoice_hash = token;
  };
}

-- It reports one scenario and succeeds.
abbrev onboard_fn :
    (ComplianceProgressEvent → Exec State (Unit {0})) → OnboardInput → Exec State OnboardingResult
onboard_fn hook given = do done ← hook event; pure result

abbrev readings : Readings
readings = record { submitted_at = 1; random_uuid = token; issued_at = 2 }

abbrev clock : Clock
clock = record {
  preflight = 1;
  lock_from = 1;
  claimed = λ s. 1;
  claim_written = λ s. 1;
  progress = 2;
  expiry_written = 3;
  promoted = 4;
  failed_at = 5;
}

abbrev args : RunOnboardingArgs
args = record {
  tenant_ref = ref;
  otp = token;
  solution_name = token;
  environment = sandbox;
  instance_id = token;
  actor = system;
  egs_custom_id = none;
  egs_model = none;
  lock_ttl_ms = some 100;
  audit_action = none;
}

abbrev server : State
server = record {
  tenants = (ref, new_record ref input 1) ∷ [];
  vault = record { rows = []; cipher_state = 1 };
  audited = [];
  world = 0;
}

run_onboarding_settles_example :
    Ended cipher onboard_fn
      (λ c. ok 1000)
      (λ entry. ok tt)
      (λ at. token)
      (λ s. s)
      clock
      args
      (run_onboarding cipher onboard_fn
        (λ c. ok 1000)
        (λ entry. ok tt)
        (λ at. token)
        (λ s. s)
        clock
        args
        server)
      server
run_onboarding_settles_example =
    run_onboarding_settles cipher onboard_fn (λ c. ok 1000) (λ entry. ok tt) (λ at. token) (λ s. s)
      clock args server
      (λ given.
        bind-Keeps
          (record { kept = λ s h. record_onboarding_progress-Live ref token true 2 s.tenants h })
          (λ done. lift-Keeps (ok result)))

core_onboarding_settles_example :
    Ended cipher
      (core_onboard builders platform gateway crypto (λ kind. readings))
      (λ c. ok 1000)
      (λ entry. ok tt)
      (λ at. token)
      (λ s. s)
      clock
      args
      (run_onboarding cipher
        (core_onboard builders platform gateway crypto (λ kind. readings))
        (λ c. ok 1000)
        (λ entry. ok tt)
        (λ at. token)
        (λ s. s)
        clock
        args
        server)
      server
core_onboarding_settles_example =
    core_onboarding_settles cipher builders platform gateway crypto (λ kind. readings)
      (λ c. ok 1000) (λ entry. ok tt) (λ at. token) (λ s. s) clock args server
