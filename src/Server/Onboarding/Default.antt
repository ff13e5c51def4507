-- ===== src/Server/Onboarding/Default.antt =====
-- packages/server/src/onboarding/run.ts with the `onboard` of the library, which is its default.
use dokhna_tech_zatca.Prelude.{ℕ, some}
use dokhna_tech_zatca.Prelude.Text.{Text}
use dokhna_tech_zatca.Errors.{Result, Exec}
use dokhna_tech_zatca.Storage.{InvoiceKind}
use dokhna_tech_zatca.Issue.{Builders}
use dokhna_tech_zatca.Server.Vault.{SecretCipher}
use dokhna_tech_zatca.Server.Audit.Log.{AuditEntryInput}
use dokhna_tech_zatca.Api.{Platform, Gateway}
use dokhna_tech_zatca.Onboarding.Scenarios.{ScenarioInput}
use dokhna_tech_zatca.Onboarding.Runner.{Readings, ComplianceProgressEvent}
use dokhna_tech_zatca.Onboarding.Onboard.{Crypto, OnboardArgs, OnboardingResult, onboard}
use dokhna_tech_zatca.Onboarding.Onboard.Keeps.{onboard-Keeps}
use dokhna_tech_zatca.Server.Onboarding.{
  ServerState, OnboardInput, Clock, RunOnboardingArgs, on_progress, run_onboarding,
}
use dokhna_tech_zatca.Server.Onboarding.Live.{record_onboarding_progress-Live}
use dokhna_tech_zatca.Server.Onboarding.Settled.{Ended, run_onboarding_settles}

abbrev pub core_args : (InvoiceKind → Readings) → OnboardInput → OnboardArgs
core_args readings input = record {
  egs_info = input.egs_info;
  otp = input.otp;
  environment = input.environment;
  solution_name = input.solution_name;
  readings = readings;
}

module _ {C Envelope W : Type 0} where
  -- A call of the world outside, which does not reach the stores.
  abbrev pub outside : {A : Type 0} → Exec W A → Exec (ServerState C Envelope W) A
  outside m s = ((m s.world).0, record s { world = (m s.world).1 })

  abbrev pub gateway_outside : Gateway W → Gateway (ServerState C Envelope W)
  gateway_outside gateway = record { send = λ call. outside (gateway.send call) }

  abbrev pub crypto_outside : Crypto W → Crypto (ServerState C Envelope W)
  crypto_outside crypto = record {
    skip_openssl_probe = crypto.skip_openssl_probe;
    ensure_openssl = outside crypto.ensure_openssl;
    generate_key_pair = outside crypto.generate_key_pair;
    generate_csr = λ p. outside (crypto.generate_csr p);
  }

  -- `coreOnboard`, with the readings that the compliance runner makes.
  unfoldable pub core_onboard :
      Builders ScenarioInput
      → Platform
      → Gateway W
      → Crypto W
      → (InvoiceKind → Readings)
      → (ComplianceProgressEvent → Exec (ServerState C Envelope W) (Unit {0}))
      → OnboardInput
      → Exec (ServerState C Envelope W) OnboardingResult
  unfolding onboard
  core_onboard builders platform gateway crypto readings hook input =
      onboard builders platform (gateway_outside gateway) (crypto_outside crypto) (some hook)
        (core_args readings input)

module _ {C Envelope W : Type 0} (cipher : SecretCipher C Envelope)
    (builders : Builders ScenarioInput) (platform : Platform) (gateway : Gateway W)
    (crypto : Crypto W) (readings : InvoiceKind → Readings) (get_expiry : Text → Result ℕ)
    (write_audit : AuditEntryInput → Result (Unit {0})) (to_iso : ℕ → Text)
    (to_lower_case : Text → Text) (clock : Clock) (args : RunOnboardingArgs) where
  -- With the `onboard` of the library, a run ends in one of these three ways, whatever the gateway,
  -- the crypto calls, the builders, the vault, the parser of the certificate and the audit log do:
  -- it throws and nothing has changed, or it returns and the tenant is ready for production, or it
  -- throws and the tenant has failed with the error's message. In the last two nobody claims the
  -- tenant.
  pub core_onboarding_settles :
      (s : ServerState C Envelope W)
      → Ended cipher
          (core_onboard builders platform gateway crypto readings)
          get_expiry
          write_audit
          to_iso
          to_lower_case
          clock
          args
          (run_onboarding cipher
            (core_onboard builders platform gateway crypto readings)
            get_expiry
            write_audit
            to_iso
            to_lower_case
            clock
            args
            s)
          s
  unfolding core_onboard
  core_onboarding_settles s =
      run_onboarding_settles cipher (core_onboard builders platform gateway crypto readings)
        get_expiry write_audit to_iso to_lower_case clock args s
        (λ input.
          onboard-Keeps builders platform (gateway_outside gateway) (crypto_outside crypto)
            (some (
              on_progress cipher (core_onboard builders platform gateway crypto readings) get_expiry
                write_audit to_iso to_lower_case clock args))
            (λ call. record { kept = λ t h. h }) (record { kept = λ t h. h })
            (record { kept = λ t h. h }) (λ p. record { kept = λ t h. h })
            (λ event. record {
              kept = λ t h.
                  record_onboarding_progress-Live args.tenant_ref event.scenario_name event.passed
                    clock.progress t.tenants h;
            })
            (core_args readings input))
