-- ===== src/Server/Onboarding.antt =====
-- packages/server/src/onboarding/run.ts: `runOnboarding`, on a registry without transactions, where
-- the unit of work runs the calls one by one.
-- Interfaces: `onboardFn` over the state of the server, the parser of the certificate's expiry, the
-- audit log's `write`, `toISOString`, and the readings of the clock. An error's `cause` is dropped.
pub mod Live
pub mod Persisted
pub mod Attempt
pub mod Settled
pub mod Default
use dokhna_tech_zatca.Prelude.{
  ℕ, ◌+◌, Bool, true, false, ◌&&◌, Option, none, some, List, [], ◌∷◌, ◌++◌, ltb, or_else,
  if◌then◌else◌,
}
use dokhna_tech_zatca.Prelude.Eq.{◌==◌}
use dokhna_tech_zatca.Prelude.Text.{Text, text, text_eq}
use dokhna_tech_zatca.Prelude.Exec.{ok, err, pure, throw, lift, ◌>>=◌, ◌>>◌}
use dokhna_tech_zatca.Json.{Json, str, obj, Fields, end, field}
use dokhna_tech_zatca.Errors.{ZatcaError, message_of, server_error, registry_error, Result, Exec}
use dokhna_tech_zatca.Egs.{EgsUnitInfo}
use dokhna_tech_zatca.Server.Tenants.{
  TenantState, created, onboarding, production_ready, failed, state_eq, state_name, TenantRecord,
  SetStateOptions, ZatcaEnvironment, sandbox, simulation, production,
}
use dokhna_tech_zatca.Server.Tenants.Store
use dokhna_tech_zatca.Server.Tenants.Store.{
  Tenants, unknown_tenant, set_state, record_onboarding_progress, set_production_expiry,
}
use dokhna_tech_zatca.Server.Invoices.{SignerMaterial}
use dokhna_tech_zatca.Server.Vault.{SecretCipher, Vault, put}
use dokhna_tech_zatca.Server.Audit.Redact.{redact_secrets}
use dokhna_tech_zatca.Server.Audit.Log.{
  AuditActor, AuditAction, tenant_onboarded, AuditResult, fine, error, AuditEntryInput,
}
use dokhna_tech_zatca.Onboarding.Runner.{ComplianceProgressEvent, OverallStatus}
use dokhna_tech_zatca.Onboarding.Runner
use dokhna_tech_zatca.Onboarding.Onboard.{OnboardingResult}

unfoldable pub default_lock_ttl_ms : ℕ
default_lock_ttl_ms = 180_000

unfoldable pub default_egs_model : Text
default_egs_model = text "ZATCA Standalone Server"

-- The stores of the server, and the world outside.
pub record ServerState (C Envelope W : Type 0) : Type 0 where
  pub tenants : Tenants
  pub vault : Vault C Envelope
  pub audited : List AuditEntryInput
  pub world : W

-- What is handed to `onboardFn`, but for the hook and the readings of the runner.
pub record OnboardInput : Type 0 where
  pub egs_info : EgsUnitInfo
  pub otp : Text
  pub environment : ZatcaEnvironment
  pub solution_name : Text

-- The readings of the clock, in the order of the calls.
pub record Clock : Type 0 where
  pub preflight : ℕ
  pub lock_from : ℕ
  pub claimed : TenantState → ℕ
  pub claim_written : TenantState → ℕ
  pub progress : ℕ
  pub expiry_written : ℕ
  pub promoted : ℕ
  pub failed_at : ℕ

pub record RunOnboardingArgs : Type 0 where
  pub tenant_ref : Text
  pub otp : Text
  pub solution_name : Text
  pub environment : ZatcaEnvironment
  pub instance_id : Text
  pub actor : AuditActor
  pub egs_custom_id : Option Text
  pub egs_model : Option Text
  pub lock_ttl_ms : Option ℕ
  pub audit_action : Option AuditAction

pub record RunOnboardingResult : Type 0 where
  pub tenant_ref : Text
  pub state : TenantState
  pub compliance_test_status : OverallStatus
  pub production_certificate_expires_at : ℕ
  pub production_request_id : Text

unfoldable pub environment_name : ZatcaEnvironment → Text
environment_name sandbox = text "sandbox"
environment_name simulation = text "simulation"
environment_name production = text "production"

-- `err instanceof Error ? err.message : String(err)`; what an other value prints to is not modelled.
unfoldable pub error_message : ZatcaError → Text
unfolding message_of
error_message e = or_else (message_of e) []

unfoldable pub build_egs_info : TenantRecord → (egs_custom_id egs_model : Option Text) → EgsUnitInfo
unfolding default_egs_model
build_egs_info r egs_custom_id egs_model = record {
  uuid = r.egs_uuid;
  custom_id = or_else egs_custom_id (r.tenant_ref ++ text "-pos-01");
  model = or_else egs_model default_egs_model;
  crn_number = r.crn;
  vat_name = r.vat_name;
  vat_number = r.vat_number;
  branch_name = r.branch_name;
  branch_industry = or_else r.branch_industry (text "Retail");
  location = record {
    city_name = r.location.city_name;
    city_subdivision = r.location.city_subdivision;
    street = r.location.street;
    plot_identification = r.location.plot_identification;
    building = r.location.building;
    postal_zone = r.location.postal_zone;
  };
  certificate = none;
}

-- `existing.claimExpiresAt > new Date()` while the state is `onboarding`.
unfoldable pub freshly_claimed : TenantRecord → (now : ℕ) → Bool
freshly_claimed existing now =
    existing.state == onboarding
    && elim existing.claim_expires_at [ none ↦ false | some at ↦ ltb now at ]

unfoldable pub already_onboarding : (to_iso : ℕ → Text) → Text → TenantRecord → ZatcaError
already_onboarding to_iso ref existing = server_error (some 409) (
    text "Tenant '"
    ++ (ref
        ++ (text "' is already onboarding (claimed by '"
            ++ (or_else existing.claimed_by (text "unknown")
                ++ (text "', lock expires "
                    ++ (to_iso (or_else existing.claim_expires_at 0) ++ text ")."))))))

unfoldable pub cannot_onboard : Text → Option TenantRecord → ZatcaError
cannot_onboard ref fresh = server_error (some 409) (
    text "Tenant '"
    ++ (ref
        ++ (text "' cannot be onboarded from state '"
            ++ (elim fresh [ none ↦ text "unknown" | some r ↦ state_name r.state ] ++ text "'."))))

module _ {C Envelope W A : Type 0} where
  abbrev pub on_tenants : Exec Tenants A → Exec (ServerState C Envelope W) A
  on_tenants m s = ((m s.tenants).0, record s { tenants = (m s.tenants).1 })

  abbrev pub on_vault : Exec (Vault C Envelope) A → Exec (ServerState C Envelope W) A
  on_vault m s = ((m s.vault).0, record s { vault = (m s.vault).1 })

  -- `try { … } catch {}`
  abbrev pub swallowed :
      Exec (ServerState C Envelope W) A → ServerState C Envelope W → ServerState C Envelope W
  swallowed m s = (m s).1

-- The states that a claim is tried from, in order.
abbrev pub claimable : List TenantState
claimable = created ∷ failed ∷ production_ready ∷ onboarding ∷ []

abbrev pub no_options : SetStateOptions
no_options = record {
  expected_from = none;
  claimed_by = none;
  claim_expires_at = none;
  last_error = none;
}

module _ {C Envelope W : Type 0} (cipher : SecretCipher C Envelope)
    (onboard_fn : (ComplianceProgressEvent → Exec (ServerState C Envelope W) (Unit {0}))
      → OnboardInput
      → Exec (ServerState C Envelope W) OnboardingResult)
    (get_expiry : Text → Result ℕ) (write_audit : AuditEntryInput → Result (Unit {0}))
    (to_iso : ℕ → Text) (to_lower_case : Text → Text) (clock : Clock)
    (args : RunOnboardingArgs) where
  abbrev State : Type 0
  State = ServerState C Envelope W

  abbrev pub claim_options : TenantState → SetStateOptions
  claim_options from = record {
    expected_from = some from;
    claimed_by = some args.instance_id;
    claim_expires_at = some (clock.lock_from + or_else args.lock_ttl_ms default_lock_ttl_ms);
    last_error = none;
  }

  -- The loop over the states: a registry error moves on to the next, any other is thrown.
  unfoldable pub acquire : List TenantState → Exec Tenants Bool
  acquire [] t = (ok false, t)
  acquire (from ∷ rest) t =
      let next_try = acquire rest t in
      elim (set_state args.tenant_ref onboarding (claim_options from) (clock.claimed from)
        (clock.claim_written from) t).0 [
          | ok r ↦ (
            ok true,
            (set_state args.tenant_ref onboarding (claim_options from) (clock.claimed from)
                (clock.claim_written from) t).1,
          )
          | err (registry_error code message) ↦ next_try
          | err e ↦ (err e, t)
        ]

  abbrev pub on_progress : ComplianceProgressEvent → Exec State (Unit {0})
  on_progress event =
      on_tenants
        (record_onboarding_progress args.tenant_ref event.scenario_name event.passed clock.progress)

  unfoldable pub audit : AuditEntryInput → Exec State (Unit {0})
  audit entry s = elim (write_audit entry) [
    | ok done ↦ (ok tt, record s { audited = s.audited ++ entry ∷ [] })
    | err e ↦ (err e, s)
  ]

  abbrev row_of : AuditResult → Fields → AuditEntryInput
  row_of result payload = record {
    actor = args.actor;
    tenant_ref = some args.tenant_ref;
    action = or_else args.audit_action tenant_onboarded;
    target_id = some args.tenant_ref;
    result = result;
    zatca_request_id = none;
    request_id = none;
    payload = some (
        redact_secrets to_lower_case (
          obj (
            field (text "environment") (str (environment_name args.environment))
              (field (text "solutionName") (str args.solution_name) payload))));
  }

  abbrev ok_row : OnboardingResult → ℕ → AuditEntryInput
  ok_row result expiry = row_of fine (
      field (text "complianceRequestId") (str result.compliance_request_id) (
        field (text "productionRequestId") (str result.production_request_id)
          (field (text "productionCertificateExpiresAt") (str (to_iso expiry)) end)))

  abbrev error_row : ZatcaError → AuditEntryInput
  error_row e = row_of error (field (text "error") (str (error_message e)) end)

  abbrev pub material_of : OnboardingResult → SignerMaterial
  material_of result = record {
    private_key = result.private_key;
    production_certificate = result.production_certificate;
    production_binary_security_token = result.production_binary_security_token;
    production_api_secret = result.production_api_secret;
    compliance_certificate = some result.compliance_certificate;
    compliance_binary_security_token = some result.compliance_binary_security_token;
    compliance_api_secret = some result.compliance_api_secret;
  }

  abbrev require_passed : OverallStatus → Result (Unit {0})
  require_passed Runner.passed = ok tt
  require_passed Runner.failed = err (
      server_error (some 422)
        (text "Compliance tests failed for tenant '" ++ (args.tenant_ref ++ text "'.")))

  abbrev expiry_of : OnboardingResult → Result ℕ
  expiry_of result = elim (get_expiry result.production_certificate) [
    | ok at ↦ ok at
    | err cause ↦ err (
        server_error none (
          text "Onboarding succeeded but production certificate expiry could not be parsed for '"
          ++ (args.tenant_ref ++ text "'.")))
  ]

  -- The batch of writes behind a run that succeeded.
  unfoldable pub persist : OnboardingResult → ℕ → Exec State TenantRecord
  unfolding audit
  persist result expiry = do
    on_vault (put cipher args.tenant_ref (material_of result))
    on_tenants (set_production_expiry args.tenant_ref expiry clock.expiry_written)
    promoted ← on_tenants (set_state args.tenant_ref production_ready no_options 0 clock.promoted)
    audit (ok_row result expiry)
    pure promoted

  -- The `try` block.
  unfoldable pub attempt : TenantRecord → Exec State RunOnboardingResult
  unfolding persist build_egs_info
  attempt existing = do
    result ← onboard_fn on_progress (record {
      egs_info = build_egs_info existing args.egs_custom_id args.egs_model;
      otp = args.otp;
      environment = args.environment;
      solution_name = args.solution_name;
    })
    lift (require_passed result.compliance_test_report.overall_status)
    expiry ← lift (expiry_of result)
    final_record ← persist result expiry
    pure (record {
      tenant_ref = args.tenant_ref;
      state = final_record.state;
      compliance_test_status = result.compliance_test_report.overall_status;
      production_certificate_expires_at = expiry;
      production_request_id = result.production_request_id;
    })

  abbrev failed_options : ZatcaError → SetStateOptions
  failed_options e = record no_options { last_error = some (error_message e) }

  -- The `catch` block: what its two calls throw is swallowed.
  unfoldable pub settle : Exec State RunOnboardingResult → Exec State RunOnboardingResult
  unfolding audit error_message
  settle m s = elim (m s).0 [
    | ok result ↦ (ok result, (m s).1)
    | err e ↦ (
      err e,
      swallowed (audit (error_row e)) (
          swallowed
            (on_tenants (set_state args.tenant_ref failed (failed_options e) 0 clock.failed_at))
            (m s).1),
    )
  ]

  -- Behind the claim.
  unfoldable pub claimed_run : TenantRecord → Bool → Exec State RunOnboardingResult
  unfolding settle attempt
  claimed_run existing false = do
    fresh ← on_tenants (Store.get args.tenant_ref)
    throw (cannot_onboard args.tenant_ref fresh)
  claimed_run existing true = settle (attempt existing)

  unfoldable pub run_with : Option TenantRecord → Exec State RunOnboardingResult
  unfolding claimed_run acquire
  run_with none = throw (unknown_tenant args.tenant_ref)
  run_with (some existing) =
      if freshly_claimed existing clock.preflight
      then throw (already_onboarding to_iso args.tenant_ref existing)
      else do acquired ← on_tenants (acquire claimable); claimed_run existing acquired

  unfoldable pub run_onboarding : Exec State RunOnboardingResult
  unfolding run_with
  run_onboarding = do existing ← on_tenants (Store.get args.tenant_ref); run_with existing
