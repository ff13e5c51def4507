-- ===== src/Server/Tenants.antt =====
-- packages/server/src/tenants/types.ts: what the registry keeps of a tenant. A Date is its epoch
-- time in ms.
pub mod Store
pub mod Lock
pub mod History
pub mod Listing
use dokhna_tech_zatca.Prelude.{ℕ, suc, true, Option, ◌≡◌, ◌↔◌, refl, eqb}
use dokhna_tech_zatca.Prelude.Eq.{Eq, retract_eq}
use dokhna_tech_zatca.Prelude.Text.{Text, text}
use dokhna_tech_zatca.Prelude.Dict.{Dict}
use dokhna_tech_zatca.Storage.{TenantScope}

pub data ZatcaEnvironment : Type 0 where
  sandbox simulation production : ZatcaEnvironment

pub data TenantState : Type 0 where
  created onboarding production_ready failed revoked : TenantState

abbrev state_code : TenantState → ℕ
state_code created = 0
state_code onboarding = 1
state_code production_ready = 2
state_code failed = 3
state_code revoked = 4

state_at : ℕ → TenantState
state_at ℕ.zero = created
state_at (suc ℕ.zero) = onboarding
state_at (suc (suc ℕ.zero)) = production_ready
state_at (suc (suc (suc ℕ.zero))) = failed
state_at _ = revoked

state_at-state_code : (s : TenantState) → state_at (state_code s) ≡ s
unfolding state_at
state_at-state_code created = refl
state_at-state_code _ = refl

pub state_beq_iff : (a b : TenantState) → (eqb (state_code a) (state_code b) ≡ true) ↔ (a ≡ b)
state_beq_iff = retract_eq state_code state_at state_at-state_code

instance abbrev pub state_eq : Eq TenantState
state_eq = record { beq = λ a b. eqb (state_code a) (state_code b); beq_iff = state_beq_iff }

unfoldable pub state_name : TenantState → Text
state_name created = text "created"
state_name onboarding = text "onboarding"
state_name production_ready = text "production-ready"
state_name failed = text "failed"
state_name revoked = text "revoked"

pub data ScenarioStatus : Type 0 where
  scenario_pending scenario_passed scenario_failed : ScenarioStatus

pub record TenantLocation : Type 0 where
  pub city_name : Text
  pub city_subdivision : Text
  pub street : Text
  pub plot_identification : Text
  pub building : Text
  pub postal_zone : Text

pub record OnboardingProgress : Type 0 where
  pub scenarios : Dict Text ScenarioStatus
  pub last_error : Option Text

pub record TenantRecord : Type 0 where
  pub tenant_ref : Text
  pub vat_number : Text
  pub egs_uuid : Text
  pub vat_name : Text
  pub crn : Text
  pub branch_name : Text
  pub branch_industry : Option Text
  pub location : TenantLocation
  pub environment : ZatcaEnvironment
  pub state : TenantState
  pub onboarding_progress : OnboardingProgress
  pub production_certificate_expires_at : Option ℕ
  pub callback_url : Option Text
  pub claimed_by : Option Text
  pub claim_expires_at : Option ℕ
  pub label : Option Text
  pub created_at : ℕ
  pub updated_at : ℕ
  pub deleted_at : Option ℕ

pub record CreateTenantInput : Type 0 where
  pub tenant_ref : Option Text
  pub vat_number : Text
  pub egs_uuid : Text
  pub vat_name : Text
  pub crn : Text
  pub branch_name : Text
  pub branch_industry : Option Text
  pub location : TenantLocation
  pub environment : ZatcaEnvironment
  pub label : Option Text
  pub callback_url : Option Text

pub record PatchableTenantFields : Type 0 where
  pub vat_name : Option Text
  pub branch_name : Option Text
  pub branch_industry : Option Text
  pub location : Option TenantLocation
  pub label : Option Text
  pub callback_url : Option Text

pub record SetStateOptions : Type 0 where
  pub expected_from : Option TenantState
  pub claimed_by : Option Text
  pub claim_expires_at : Option ℕ
  pub last_error : Option Text

unfoldable pub to_tenant_scope : TenantRecord → TenantScope
to_tenant_scope r = record { vat_number = r.vat_number; egs_uuid = r.egs_uuid }
