-- ===== src/Server/Onboarding/Settled.antt =====
-- A run of the onboarding never leaves its claim behind.
use dokhna_tech_zatca.Prelude.{
  ℕ, ◌≡◌, ◌⊎◌, inl, inr, refl, ap, ◌∙◌, sym, subst, true, false, Bool, Bool-cases, Option,
  Option-cases, none, some, List, [], ◌∷◌, arith,
}
use dokhna_tech_zatca.Prelude.Text.{Text, text_eq}
use dokhna_tech_zatca.Prelude.Dict.{lookup, lookup-insert_self}
use dokhna_tech_zatca.Prelude.Exec.{ok, err, Result-cases}
use dokhna_tech_zatca.Errors.{ZatcaError, registry_error, Result, Exec}
use dokhna_tech_zatca.Server.Tenants.{
  TenantState, onboarding, production_ready, failed, TenantRecord,
}
use dokhna_tech_zatca.Server.Tenants.Store
use dokhna_tech_zatca.Server.Tenants.Store.{
  unknown_tenant, Tenants, transitioned, set_state, set_production_expiry,
}
use dokhna_tech_zatca.Server.Vault.{SecretCipher}
use dokhna_tech_zatca.Server.Audit.Log.{AuditEntryInput}
use dokhna_tech_zatca.Onboarding.Runner.{ComplianceProgressEvent}
use dokhna_tech_zatca.Onboarding.Onboard.{OnboardingResult}
use dokhna_tech_zatca.Server.Onboarding.{
  ServerState, OnboardInput, Clock, RunOnboardingArgs, RunOnboardingResult, on_tenants,
  claim_options, acquire, claimable, error_row, failed_options, settle, claimed_run, run_with,
  freshly_claimed, already_onboarding, cannot_onboard, run_onboarding, error_message,
}
use dokhna_tech_zatca.Server.Onboarding.Live.{Live, set_state_free, set_state-Live}
use dokhna_tech_zatca.Server.Onboarding.Persisted.{write, audit-tenants}
use dokhna_tech_zatca.Server.Onboarding.Attempt.{L, tried, Spares, attempt-Lives, attempt-Ready}

module _ {C Envelope W : Type 0} (cipher : SecretCipher C Envelope)
    (onboard_fn : (ComplianceProgressEvent → Exec (ServerState C Envelope W) (Unit {0}))
      → OnboardInput
      → Exec (ServerState C Envelope W) OnboardingResult)
    (get_expiry : Text → Result ℕ) (write_audit : AuditEntryInput → Result (Unit {0}))
    (to_iso : ℕ → Text) (to_lower_case : Text → Text) (clock : Clock)
    (args : RunOnboardingArgs) where
  abbrev IsLive : ServerState C Envelope W → Type 0
  IsLive = L cipher onboard_fn get_expiry write_audit to_iso to_lower_case clock args

  abbrev the_claim : List TenantState → Exec Tenants Bool
  the_claim = acquire cipher onboard_fn get_expiry write_audit to_iso to_lower_case clock args

  -- A run that ended badly behind its claim: the tenant has failed, with the error's message, and
  -- nobody claims it.
  pub record IsFailed (e : ZatcaError) (s : ServerState C Envelope W) : Type 0 where
    pub tenant : TenantRecord
    pub there : lookup args.tenant_ref s.tenants ≡ some tenant
    pub state : tenant.state ≡ failed
    pub unowned : tenant.claimed_by ≡ none
    pub unclaimed : tenant.claim_expires_at ≡ none
    pub says : tenant.onboarding_progress.last_error ≡ some (error_message e)

  pub record IsReady (result : RunOnboardingResult) (s : ServerState C Envelope W) : Type 0 where
    pub tenant : TenantRecord
    pub there : lookup args.tenant_ref s.tenants ≡ some tenant
    pub state : tenant.state ≡ production_ready
    pub unowned : tenant.claimed_by ≡ none
    pub unclaimed : tenant.claim_expires_at ≡ none
    pub reported : result.state ≡ production_ready

  -- How a run may end: refused, with nothing changed, or ready, or failed.
  abbrev pub Ended :
      Result RunOnboardingResult × ServerState C Envelope W → ServerState C Envelope W → Type 0
  Ended run s =
      ((e : ZatcaError) × (run ≡ (err e, s)))
      ⊎ (((result : RunOnboardingResult) × (run.0 ≡ ok result) × IsReady result run.1)
          ⊎ ((e : ZatcaError) × (run.0 ≡ err e) × IsFailed e run.1))

  abbrev settled : TenantRecord → Exec (ServerState C Envelope W) RunOnboardingResult
  settled existing =
      settle cipher onboard_fn get_expiry write_audit to_iso to_lower_case clock args
        (tried cipher onboard_fn get_expiry write_audit to_iso to_lower_case clock args existing)

  marked :
      (e : ZatcaError) (s : ServerState C Envelope W)
      → IsLive s
      → IsFailed e
          (write cipher onboard_fn get_expiry write_audit to_iso to_lower_case clock args
            (error_row cipher onboard_fn get_expiry write_audit to_iso to_lower_case clock args e)
            (on_tenants {W = W}
              (set_state args.tenant_ref failed
                (failed_options cipher onboard_fn get_expiry write_audit to_iso to_lower_case clock
                  args e)
                0
                clock.failed_at)
              s).1).1
  marked e s h =
      let o =
        failed_options cipher onboard_fn get_expiry write_audit to_iso to_lower_case clock args e in
      let free = set_state_free args.tenant_ref failed o 0 clock.failed_at s.tenants h refl in
      let new = transitioned failed o clock.failed_at h.tenant in
      let s' = (on_tenants {W = W} (set_state args.tenant_ref failed o 0 clock.failed_at) s).1 in
      let kept =
        audit-tenants cipher onboard_fn get_expiry write_audit to_iso to_lower_case clock args
          (error_row cipher onboard_fn get_expiry write_audit to_iso to_lower_case clock args e)
          s' in
      record {
        tenant = new;
        there =
            ap (λ t. lookup args.tenant_ref t) kept
            ∙ rw free (lookup-insert_self args.tenant_ref new s.tenants);
        state = refl;
        unowned = refl;
        unclaimed = refl;
        says = refl;
      }

  settled-Ended :
      (existing : TenantRecord) (s start : ServerState C Envelope W)
      → Spares cipher onboard_fn get_expiry write_audit to_iso to_lower_case clock args
      → IsLive s
      → Ended (settled existing s) start
  unfolding settle
  settled-Ended existing s start spares h =
      elim (Result-cases
        (tried cipher onboard_fn get_expiry write_audit to_iso to_lower_case clock args existing
          s).0) [
            | inl (result, good) ↦
                let (r, (state, unowned, unclaimed, there), reported) =
                  attempt-Ready cipher onboard_fn get_expiry write_audit to_iso to_lower_case clock
                    args existing s result spares h good in
                inr (
                  inl (
                    result,
                    rw (settle, good) refl,
                    rw (settle, good)
                        (record {
                          tenant = r;
                          there = there;
                          state = state;
                          unowned = unowned;
                          unclaimed = unclaimed;
                          reported = reported;
                        }),
                  ))
            | inr (e, bad) ↦ inr (
                inr (
                  e,
                  rw (settle, bad) refl,
                  rw (settle, bad)
                      (marked e
                        (tried cipher onboard_fn get_expiry write_audit to_iso to_lower_case clock
                          args existing s).1
                        ((attempt-Lives cipher onboard_fn get_expiry write_audit to_iso
                            to_lower_case clock args spares existing).kept
                          s h)),
                ))
          ]

  -- The claim fails without a trace, or is made.
  abbrev Claimed : Result Bool × Tenants → Tenants → Type 0
  Claimed claim t =
      ((claim.0 ≡ ok true) × Live args.tenant_ref claim.1)
      ⊎ (((claim.0 ≡ ok false) ⊎ ((e : ZatcaError) × (claim.0 ≡ err e))) × (claim.1 ≡ t))

  abbrev claim_call : TenantState → Exec Tenants TenantRecord
  claim_call from =
      set_state args.tenant_ref onboarding
        (claim_options cipher onboard_fn get_expiry write_audit to_iso to_lower_case clock args
          from)
        (clock.claimed from) (clock.claim_written from)

  first_Claimed :
      (from : TenantState) (rest : List TenantState) (t : Tenants) (r : Result TenantRecord)
      → Live args.tenant_ref t
      → (claim_call from t).0 ≡ r
      → Claimed (the_claim rest t) t
      → Claimed (the_claim (from ∷ rest) t) t
  unfolding acquire
  first_Claimed from rest t (ok r) h e later =
      inl (
        rw (acquire, e) refl,
        rw (acquire, e) (set_state-Live args.tenant_ref onboarding _ _ _ t h),
      )
  first_Claimed from rest t (err (registry_error code message)) h e later =
      let same : the_claim (from ∷ rest) t ≡ the_claim rest t = rw (acquire, e) refl in
      subst (λ x. Claimed x t) (sym same) later
  first_Claimed from rest t (err x) h e later =
      inr (inr (x, rw (acquire, e) refl), rw (acquire, e) refl)

  acquire-Claimed :
      (list : List TenantState) (t : Tenants)
      → Live args.tenant_ref t
      → Claimed (the_claim list t) t
  unfolding acquire
  acquire-Claimed [] t h = inr (inl refl, refl)
  acquire-Claimed (from ∷ rest) t h =
      first_Claimed from rest t (claim_call from t).0 h refl (acquire-Claimed rest t h)

  abbrev run : Exec (ServerState C Envelope W) RunOnboardingResult
  run = run_onboarding cipher onboard_fn get_expiry write_audit to_iso to_lower_case clock args

  -- A tenant that is deleted is not found.
  get_lem :
      (t : Tenants)
      → (Store.get args.tenant_ref t ≡ (ok none, t))
        ⊎ ((r : TenantRecord) × (Store.get args.tenant_ref t ≡ (ok (some r), t))
            × Live args.tenant_ref t)
  unfolding Store.get
  get_lem t = elim (Option-cases (lookup args.tenant_ref t)) [
    | inl missing ↦ inl (rw (Store.get, missing) refl)
    | inr (r, found) ↦ elim (Option-cases r.deleted_at) [
      | inl alive ↦ inr (r, ground arith, record { tenant = r; there = found; live = alive })
      | inr (at, gone) ↦ inl (rw (Store.get, found, gone) refl)
    ]
  ]

  get_ok : (t : Tenants) → (o : Option TenantRecord) × (Store.get args.tenant_ref t ≡ (ok o, t))
  get_ok t = elim (get_lem t) [ inl missing ↦ (none, missing) | inr (r, got, _) ↦ (some r, got) ]

  abbrev run_found : TenantRecord → Exec (ServerState C Envelope W) RunOnboardingResult
  run_found existing =
      run_with cipher onboard_fn get_expiry write_audit to_iso to_lower_case clock args
        (some existing)

  run_found-Ended :
      (existing : TenantRecord) (s : ServerState C Envelope W)
      → Spares cipher onboard_fn get_expiry write_audit to_iso to_lower_case clock args
      → IsLive s
      → Ended (run_found existing s) s
  unfolding run_with claimed_run
  run_found-Ended existing s spares h =
      elim (Bool-cases (freshly_claimed existing clock.preflight)) [
        | inl held ↦
            inl (already_onboarding to_iso args.tenant_ref existing, rw (run_with, held) refl)
        | inr free ↦ elim (acquire-Claimed claimable s.tenants h) [
          | inl (claimed, still) ↦
              let s' : ServerState C Envelope W = record s {
                tenants = (the_claim claimable s.tenants).1;
              } in
              let same : run_found existing s ≡ settled existing s' =
                rw (run_with, free, claimed, claimed_run) refl in
              subst (λ x. Ended x s) (sym same) (settled-Ended existing s' s spares still)
          | inr (bad, unchanged) ↦ elim bad [
            | inr (e, thrown) ↦ inl (e, rw (run_with, free, thrown, unchanged) refl)
            | inl no_claim ↦
                let (fresh, got) = get_ok s.tenants in
                inl (
                  cannot_onboard args.tenant_ref fresh,
                  rw (run_with, free, no_claim, unchanged, claimed_run, got) refl,
                )
          ]
        ]
      ]

  -- A run of the onboarding ends in one of three ways, if `onboardFn` does not delete the tenant,
  -- whatever else it does and whatever the vault, the parser of the certificate and the audit log
  -- throw. Either it throws and nothing has changed. Or it returns, and the tenant is ready for
  -- production. Or it throws, and the tenant has failed with the error's message. In the last two
  -- nobody claims the tenant.
  pub run_onboarding_settles :
      (s : ServerState C Envelope W)
      → Spares cipher onboard_fn get_expiry write_audit to_iso to_lower_case clock args
      → Ended (run s) s
  unfolding run_onboarding
  run_onboarding_settles s spares = elim (get_lem s.tenants) [
    | inl missing ↦ inl (unknown_tenant args.tenant_ref, rw (run_onboarding, missing) refl)
    | inr (existing, got, h) ↦
        let same : run s ≡ run_found existing s = rw (run_onboarding, got) refl in
        subst (λ x. Ended x s) (sym same) (run_found-Ended existing s spares h)
  ]
