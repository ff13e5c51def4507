-- ===== src/Server/Onboarding/Persisted.antt =====
-- What the batch of writes behind a successful run leaves in the registry.
use dokhna_tech_zatca.Prelude.{ℕ, ◌≡◌, inl, inr, refl, ap, ◌∙◌, sym, subst, none, some}
use dokhna_tech_zatca.Prelude.Text.{Text, text_eq}
use dokhna_tech_zatca.Prelude.Dict.{lookup, lookup-insert_self}
use dokhna_tech_zatca.Prelude.Exec.{
  ok, Result-cases, bind-split, Keeps, bind-Keeps, lift-Keeps, ok-injective,
}
use dokhna_tech_zatca.Errors.{Result, Exec}
use dokhna_tech_zatca.Server.Tenants.{production_ready, TenantRecord}
use dokhna_tech_zatca.Server.Tenants.Store.{transitioned, set_state, set_production_expiry}
use dokhna_tech_zatca.Server.Vault.{SecretCipher, put}
use dokhna_tech_zatca.Server.Audit.Log.{AuditEntryInput}
use dokhna_tech_zatca.Onboarding.Runner.{ComplianceProgressEvent}
use dokhna_tech_zatca.Onboarding.Onboard.{OnboardingResult}
use dokhna_tech_zatca.Server.Onboarding.{
  ServerState, OnboardInput, Clock, RunOnboardingArgs, on_tenants, on_vault, no_options, audit,
  ok_row, material_of, persist,
}
use dokhna_tech_zatca.Server.Onboarding.Live.{
  Live, set_state_free, set_state-Live, set_production_expiry-Live,
}

module _ {C Envelope W : Type 0} (cipher : SecretCipher C Envelope)
    (onboard_fn : (ComplianceProgressEvent → Exec (ServerState C Envelope W) (Unit {0}))
      → OnboardInput
      → Exec (ServerState C Envelope W) OnboardingResult)
    (get_expiry : Text → Result ℕ) (write_audit : AuditEntryInput → Result (Unit {0}))
    (to_iso : ℕ → Text) (to_lower_case : Text → Text) (clock : Clock)
    (args : RunOnboardingArgs) where
  abbrev pub Lives : ServerState C Envelope W → Type 0
  Lives s = Live args.tenant_ref s.tenants

  abbrev pub write : AuditEntryInput → Exec (ServerState C Envelope W) (Unit {0})
  write = audit cipher onboard_fn get_expiry write_audit to_iso to_lower_case clock args

  pub audit-tenants :
      (entry : AuditEntryInput) (s : ServerState C Envelope W)
      → (write entry s).1.tenants ≡ s.tenants
  unfolding audit
  audit-tenants entry s = elim (Result-cases (write_audit entry)) [
    | inl (done, written) ↦ rw (audit, written) refl
    | inr (e, refused) ↦ rw (audit, refused) refl
  ]

  pub audit-Lives : (entry : AuditEntryInput) → Keeps Lives (write entry)
  audit-Lives entry = record {
    kept = λ s h. subst (λ t. Live args.tenant_ref t) (sym (audit-tenants entry s)) h;
  }

  abbrev pub persisted : OnboardingResult → ℕ → Exec (ServerState C Envelope W) TenantRecord
  persisted = persist cipher onboard_fn get_expiry write_audit to_iso to_lower_case clock args

  put-Lives :
      (result : OnboardingResult)
      → Keeps Lives (
          on_vault (
            put cipher args.tenant_ref (
              material_of cipher onboard_fn get_expiry write_audit to_iso to_lower_case clock args
                result)))
  put-Lives result = record { kept = λ s h. h }

  expiry-Lives :
      (expiry : ℕ)
      → Keeps Lives (on_tenants (set_production_expiry args.tenant_ref expiry clock.expiry_written))
  expiry-Lives expiry = record {
    kept =
        λ s h. set_production_expiry-Live args.tenant_ref expiry clock.expiry_written s.tenants h;
  }

  promote-Lives :
      Keeps Lives
        (on_tenants (set_state args.tenant_ref production_ready no_options 0 clock.promoted))
  promote-Lives = record {
    kept = λ s h.
        set_state-Live args.tenant_ref production_ready no_options 0 clock.promoted s.tenants h;
  }

  pub persist-Lives :
      (result : OnboardingResult) (expiry : ℕ) → Keeps Lives (persisted result expiry)
  unfolding persist
  persist-Lives result expiry = bind-Keeps (put-Lives result) (λ _.
      bind-Keeps (expiry-Lives expiry) (λ _. bind-Keeps promote-Lives (λ promoted.
        bind-Keeps
          (audit-Lives (
            ok_row cipher onboard_fn get_expiry write_audit to_iso to_lower_case clock args result
              expiry))
          (λ _. lift-Keeps (ok promoted)))))

  promoted_lem :
      (s : ServerState C Envelope W) {r : TenantRecord}
      → Lives s
      → (on_tenants {W = W}
          (set_state args.tenant_ref production_ready no_options 0 clock.promoted)
          s).0
        ≡ ok r
      → (r.state ≡ production_ready)
        × (r.claimed_by ≡ none)
        × (r.claim_expires_at ≡ none)
        × (lookup args.tenant_ref
              (set_state args.tenant_ref production_ready no_options 0 clock.promoted s.tenants).1
            ≡ some r)
  promoted_lem s {r} h p =
      let free =
        set_state_free args.tenant_ref production_ready no_options 0 clock.promoted s.tenants h
          refl in
      let new = transitioned production_ready no_options clock.promoted h.tenant in
      let same : new ≡ r = ok-injective (sym (ap (λ x. x.0) free) ∙ p) in
      subst
        (λ x.
          (x.state ≡ production_ready)
          × (x.claimed_by ≡ none)
          × (x.claim_expires_at ≡ none)
          × (lookup args.tenant_ref
                (set_state args.tenant_ref production_ready no_options 0 clock.promoted s.tenants).1
              ≡ some x))
        same (refl, refl, refl, rw free (lookup-insert_self args.tenant_ref new s.tenants))

  -- Ready, and nobody's claim.
  abbrev pub Ready : TenantRecord → ServerState C Envelope W → Type 0
  Ready r s =
      (r.state ≡ production_ready)
      × (r.claimed_by ≡ none)
      × (r.claim_expires_at ≡ none)
      × (lookup args.tenant_ref s.tenants ≡ some r)

  pub persist-Ready :
      (result : OnboardingResult) (expiry : ℕ) (s : ServerState C Envelope W)
      (final_record : TenantRecord)
      → Lives s
      → (persisted result expiry s).0 ≡ ok final_record
      → Ready final_record (persisted result expiry s).1
  unfolding persist
  persist-Ready result expiry s final_record h p =
      let putting = on_vault (
        put cipher args.tenant_ref (
          material_of cipher onboard_fn get_expiry write_audit to_iso to_lower_case clock args
            result)) in
      let (_, _, e1, p1) = bind-split putting _ s p in
      let s1 = (putting s).1 in
      let h1 = (put-Lives result).kept s h in
      let expiring =
        on_tenants (set_production_expiry args.tenant_ref expiry clock.expiry_written) in
      let (_, _, e2, p2) = bind-split expiring _ s1 p1 in
      let s2 = (expiring s1).1 in
      let h2 = (expiry-Lives expiry).kept s1 h1 in
      let promoting =
        on_tenants (set_state args.tenant_ref production_ready no_options 0 clock.promoted) in
      let (r, q3, e3, p3) = bind-split promoting _ s2 p2 in
      let s3 = (promoting s2).1 in
      let entry =
        ok_row cipher onboard_fn get_expiry write_audit to_iso to_lower_case clock args result
          expiry in
      let (_, _, e4, p4) = bind-split (write entry) _ s3 p3 in
      let same : r ≡ final_record = ok-injective p4 in
      let (a, b, c, d) = promoted_lem s2 h2 q3 in
      let state : (persisted result expiry s).1.tenants ≡ s3.tenants =
        ap (λ x. x.1.tenants) (e1 ∙ e2 ∙ e3 ∙ e4) ∙ audit-tenants entry s3 in
      subst (λ x. Ready x (persisted result expiry s).1) same
        (a, b, c, ap (λ t. lookup args.tenant_ref t) state ∙ d)
