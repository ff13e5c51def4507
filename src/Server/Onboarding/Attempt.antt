-- ===== src/Server/Onboarding/Attempt.antt =====
-- The `try` block of a run: the tenant stays in the registry, and ends ready where the block ends well.
use dokhna_tech_zatca.Prelude.{ℕ, ◌≡◌, ap, ◌∙◌, sym, subst}
use dokhna_tech_zatca.Prelude.Text.{Text, text_eq}
use dokhna_tech_zatca.Prelude.Exec.{
  ok, lift, bind-split, Keeps, bind-Keeps, lift-Keeps, ok-injective,
}
use dokhna_tech_zatca.Errors.{Result, Exec}
use dokhna_tech_zatca.Server.Tenants.{production_ready, TenantRecord}
use dokhna_tech_zatca.Server.Vault.{SecretCipher}
use dokhna_tech_zatca.Server.Audit.Log.{AuditEntryInput}
use dokhna_tech_zatca.Onboarding.Runner.{ComplianceProgressEvent}
use dokhna_tech_zatca.Onboarding.Onboard.{OnboardingResult}
use dokhna_tech_zatca.Server.Onboarding.{
  ServerState, OnboardInput, Clock, RunOnboardingArgs, RunOnboardingResult, build_egs_info,
  on_progress, require_passed, expiry_of, attempt,
}
use dokhna_tech_zatca.Server.Onboarding.Persisted.{
  Lives, Ready, persisted, persist-Lives, persist-Ready,
}

module _ {C Envelope W : Type 0} (cipher : SecretCipher C Envelope)
    (onboard_fn : (ComplianceProgressEvent → Exec (ServerState C Envelope W) (Unit {0}))
      → OnboardInput
      → Exec (ServerState C Envelope W) OnboardingResult)
    (get_expiry : Text → Result ℕ) (write_audit : AuditEntryInput → Result (Unit {0}))
    (to_iso : ℕ → Text) (to_lower_case : Text → Text) (clock : Clock)
    (args : RunOnboardingArgs) where
  abbrev input_of : TenantRecord → OnboardInput
  input_of existing = record {
    egs_info = build_egs_info existing args.egs_custom_id args.egs_model;
    otp = args.otp;
    environment = args.environment;
    solution_name = args.solution_name;
  }

  abbrev pub L : ServerState C Envelope W → Type 0
  L = Lives cipher onboard_fn get_expiry write_audit to_iso to_lower_case clock args

  abbrev pub IsPromoted : TenantRecord → ServerState C Envelope W → Type 0
  IsPromoted = Ready cipher onboard_fn get_expiry write_audit to_iso to_lower_case clock args

  abbrev pub tried : TenantRecord → Exec (ServerState C Envelope W) RunOnboardingResult
  tried = attempt cipher onboard_fn get_expiry write_audit to_iso to_lower_case clock args

  abbrev onboarding_call : TenantRecord → Exec (ServerState C Envelope W) OnboardingResult
  onboarding_call existing =
      onboard_fn
        (on_progress cipher onboard_fn get_expiry write_audit to_iso to_lower_case clock args)
        (input_of existing)

  -- `onboardFn` does not delete the tenant, whatever else it does.
  abbrev pub Spares : Type 0
  Spares =
      (input : OnboardInput)
      → Keeps L (
          onboard_fn
            (on_progress cipher onboard_fn get_expiry write_audit to_iso to_lower_case clock args)
            input)

  pub attempt-Lives : Spares → (existing : TenantRecord) → Keeps L (tried existing)
  unfolding attempt
  attempt-Lives spares existing = bind-Keeps (spares (input_of existing)) (λ result.
      bind-Keeps
        (lift-Keeps (
          require_passed cipher onboard_fn get_expiry write_audit to_iso to_lower_case clock args
            result.compliance_test_report.overall_status))
        (λ _.
          bind-Keeps
            (lift-Keeps (
              expiry_of cipher onboard_fn get_expiry write_audit to_iso to_lower_case clock args
                result))
            (λ expiry.
              bind-Keeps
                (persist-Lives cipher onboard_fn get_expiry write_audit to_iso to_lower_case clock
                  args result expiry)
                (λ final_record. record { kept = λ s h. h }))))

  pub attempt-Ready :
      (existing : TenantRecord) (s : ServerState C Envelope W) (result : RunOnboardingResult)
      → Spares
      → L s
      → (tried existing s).0 ≡ ok result
      → (r : TenantRecord) × IsPromoted r (tried existing s).1 × (result.state ≡ production_ready)
  unfolding attempt
  attempt-Ready existing s result spares h p =
      let calling = onboarding_call existing in
      let (made, _, e1, p1) = bind-split calling _ s p in
      let s1 = (calling s).1 in
      let h1 = (spares (input_of existing)).kept s h in
      let (_, _, e2, p2) =
        bind-split
          (lift (
            require_passed cipher onboard_fn get_expiry write_audit to_iso to_lower_case clock args
              made.compliance_test_report.overall_status))
          _ s1 p1 in
      let (expiry, _, e3, p3) =
        bind-split
          (lift (
            expiry_of cipher onboard_fn get_expiry write_audit to_iso to_lower_case clock args
              made))
          _ s1 p2 in
      let keeping =
        persisted cipher onboard_fn get_expiry write_audit to_iso to_lower_case clock args made
          expiry in
      let (final_record, q4, e4, p4) = bind-split keeping _ s1 p3 in
      let good =
        persist-Ready cipher onboard_fn get_expiry write_audit to_iso to_lower_case clock args made
          expiry s1 final_record h1 q4 in
      let state : (tried existing s).1 ≡ (keeping s1).1 = ap (λ x. x.1) (e1 ∙ e2 ∙ e3 ∙ e4) in
      (
        final_record,
        subst (λ t. IsPromoted final_record t) (sym state) good,
        sym (ap (λ r. r.state) (ok-injective p4)) ∙ good.0,
      )
