-- ===== src/Server/Onboarding/Live.antt =====
-- A tenant that is in the registry and not deleted stays so under the calls of a run.
use dokhna_tech_zatca.Prelude.{ℕ, ◌≡◌, inl, inr, refl, ◌∙◌, Bool, Bool-cases, none, some}
use dokhna_tech_zatca.Prelude.Text.{Text, text_eq}
use dokhna_tech_zatca.Prelude.Dict.{lookup, insert, lookup-insert_self}
use dokhna_tech_zatca.Prelude.Exec.{ok}
use dokhna_tech_zatca.Server.Tenants.{TenantState, TenantRecord, SetStateOptions}
use dokhna_tech_zatca.Server.Tenants.Store.{
  Tenants, may_transition, transitioned, update, with_scenario, with_expiry, set_state,
  record_onboarding_progress, set_production_expiry,
}
use dokhna_tech_zatca.Server.Tenants.Lock.{require_record-live, then-state}

-- The tenant is in the registry and not deleted.
pub record Live (ref : Text) (t : Tenants) : Type 0 where
  pub tenant : TenantRecord
  pub there : lookup ref t ≡ some tenant
  pub live : tenant.deleted_at ≡ none

pub set_state_free :
    (ref : Text) (next : TenantState) (o : SetStateOptions) (checked now : ℕ) (t : Tenants)
    (h : Live ref t)
    → o.expected_from ≡ none
    → set_state ref next o checked now t
      ≡ (ok (transitioned next o now h.tenant), insert ref (transitioned next o now h.tenant) t)
unfolding set_state may_transition
set_state_free ref next o checked now t h free =
    rw (set_state, require_record-live ref t h.tenant h.there h.live, may_transition, free) refl

update-Live :
    (ref : Text) (f : TenantRecord → TenantRecord) (t : Tenants)
    → ((r : TenantRecord) → (f r).deleted_at ≡ r.deleted_at)
    → Live ref t
    → Live ref (update ref f t).1
update-Live ref f t keeps h = record {
  tenant = f h.tenant;
  there =
      rw (update, require_record-live ref t h.tenant h.there h.live)
        (lookup-insert_self ref (f h.tenant) t);
  live = keeps h.tenant ∙ h.live;
}

pub set_state-Live :
    (ref : Text) (next : TenantState) (o : SetStateOptions) (checked now : ℕ) (t : Tenants)
    → Live ref t
    → Live ref (set_state ref next o checked now t).1
unfolding set_state
set_state-Live ref next o checked now t h = elim (Bool-cases (may_transition h.tenant o checked)) [
  | inl may ↦ record {
    tenant = transitioned next o now h.tenant;
    there =
        rw (set_state, require_record-live ref t h.tenant h.there h.live, may)
          (lookup-insert_self ref (transitioned next o now h.tenant) t);
    live = h.live;
  }
  | inr may_not ↦ rw (set_state, require_record-live ref t h.tenant h.there h.live, may_not) h
]

pub set_production_expiry-Live :
    (ref : Text) (at now : ℕ) (t : Tenants)
    → Live ref t
    → Live ref (set_production_expiry ref at now t).1
unfolding set_production_expiry
set_production_expiry-Live ref at now t h =
    rw (then-state t ref (with_expiry at now))
      (update-Live ref (with_expiry at now) t (λ r. refl) h)

pub record_onboarding_progress-Live :
    (ref scenario : Text) (passed : Bool) (now : ℕ) (t : Tenants)
    → Live ref t
    → Live ref (record_onboarding_progress ref scenario passed now t).1
unfolding record_onboarding_progress
record_onboarding_progress-Live ref scenario passed now t h =
    rw (then-state t ref (with_scenario scenario passed now))
      (update-Live ref (with_scenario scenario passed now) t (λ r. refl) h)
