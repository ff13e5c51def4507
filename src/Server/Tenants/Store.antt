-- ===== src/Server/Tenants/Store.antt =====
-- packages/server/src/tenants/registry-memory.ts: `createMemoryTenantStore`; Listing has `list`.
-- The state is the Map of the records. Each call is given what `clock()` returns in it, once for
-- each place that reads it. Nothing awaits inside a call, so each call is one step; `clone` on the
-- way out leaves no trace, since nothing here shares memory.
use dokhna_tech_zatca.Prelude.{
  ℕ, Bool, true, ◌&&◌, ◌||◌, not, Option, none, some, [], ◌++◌, leb, if◌then◌else◌, or_else,
}
use dokhna_tech_zatca.Prelude.Eq.{◌==◌}
use dokhna_tech_zatca.Prelude.Text.{Text, text, text_eq}
use dokhna_tech_zatca.Prelude.Dict.{Dict, lookup, insert}
use dokhna_tech_zatca.Prelude.Exec.{ok, err, pure, ◌>>◌}
use dokhna_tech_zatca.Errors.{registry_error, not_found, conflict, ZatcaError, Result, Exec}
use dokhna_tech_zatca.Server.Tenants.{
  TenantState, created, onboarding, revoked, state_eq, state_name, scenario_passed, scenario_failed,
  OnboardingProgress, TenantRecord, CreateTenantInput, PatchableTenantFields, SetStateOptions,
}

abbrev pub Tenants : Type 0
Tenants = Dict Text TenantRecord

unfoldable pub unknown_tenant : Text → ZatcaError
unknown_tenant ref = registry_error (some not_found) (text "Unknown tenant '" ++ (ref ++ text "'."))

unfoldable pub already_exists : Text → ZatcaError
already_exists ref =
    registry_error (some conflict) (text "Tenant '" ++ (ref ++ text "' already exists."))

unfoldable pub already_deleted : Text → ZatcaError
already_deleted ref =
    registry_error (some conflict) (text "Tenant '" ++ (ref ++ text "' is already deleted."))

unfoldable pub cannot_transition : Text → TenantState → TenantState → ZatcaError
cannot_transition ref state expected_from = registry_error (some conflict) (
    text "Cannot transition tenant '"
    ++ (ref
        ++ (text "' from '"
            ++ (state_name state
                ++ (text "' (expected '" ++ (state_name expected_from ++ text "')."))))))

unfoldable pub require_record : Text → Tenants → Result TenantRecord
require_record ref records = elim (lookup ref records) [
  | none ↦ err (unknown_tenant ref)
  | some existing ↦ elim existing.deleted_at [
    | none ↦ ok existing
    | some at ↦ err (unknown_tenant ref)
  ]
]

unfoldable pub empty_progress : OnboardingProgress
empty_progress = record { scenarios = []; last_error = none }

abbrev pub new_record : Text → CreateTenantInput → ℕ → TenantRecord
new_record ref input now = record {
  tenant_ref = ref;
  vat_number = input.vat_number;
  egs_uuid = input.egs_uuid;
  vat_name = input.vat_name;
  crn = input.crn;
  branch_name = input.branch_name;
  branch_industry = input.branch_industry;
  location = input.location;
  environment = input.environment;
  state = created;
  onboarding_progress = empty_progress;
  production_certificate_expires_at = none;
  callback_url = input.callback_url;
  claimed_by = none;
  claim_expires_at = none;
  label = input.label;
  created_at = now;
  updated_at = now;
  deleted_at = none;
}

-- `generated` is what `generateTenantRef()` returns.
unfoldable pub create :
    CreateTenantInput → (generated : Text) → (now : ℕ) → Exec Tenants TenantRecord
create input generated now records =
    let ref = or_else input.tenant_ref generated in
    elim (lookup ref records) [
      | some existing ↦ (err (already_exists ref), records)
      | none ↦ (ok (new_record ref input now), insert ref (new_record ref input now) records)
    ]

unfoldable pub get : Text → Exec Tenants (Option TenantRecord)
get ref records = elim (lookup ref records) [
  | none ↦ (ok none, records)
  | some existing ↦ elim existing.deleted_at [
    | none ↦ (ok (some existing), records)
    | some at ↦ (ok none, records)
  ]
]

-- `requireRecord`, then the write of an updated record.
abbrev pub update : Text → (TenantRecord → TenantRecord) → Exec Tenants TenantRecord
update ref f records = elim (require_record ref records) [
  | err e ↦ (err e, records)
  | ok existing ↦ (ok (f existing), insert ref (f existing) records)
]

-- `...(a !== undefined ? { field: a } : {})` over an optional field.
abbrev pub overlay {ℓ} : {A : Type ℓ} → Option A → Option A → Option A
overlay none old = old
overlay (some a) old = some a

abbrev pub patched : PatchableTenantFields → ℕ → TenantRecord → TenantRecord
patched patch now existing = record existing {
  vat_name = or_else patch.vat_name existing.vat_name;
  branch_name = or_else patch.branch_name existing.branch_name;
  branch_industry = overlay patch.branch_industry existing.branch_industry;
  location = or_else patch.location existing.location;
  label = overlay patch.label existing.label;
  callback_url = overlay patch.callback_url existing.callback_url;
  updated_at = now;
}

unfoldable pub patch : Text → PatchableTenantFields → (now : ℕ) → Exec Tenants TenantRecord
unfolding require_record
patch ref fields now = update ref (patched fields now)

-- The claim expired, or was never persisted, at `now`.
unfoldable pub lock_not_held : TenantRecord → (now : ℕ) → Bool
lock_not_held existing now =
    existing.state == onboarding
    && elim existing.claim_expires_at [ none ↦ true | some at ↦ leb at now ]

unfoldable pub from_exact_match : TenantRecord → TenantState → Bool
from_exact_match existing expected = existing.state == expected && not (expected == onboarding)

-- The check under `options.expectedFrom !== undefined`.
unfoldable pub may_transition : TenantRecord → SetStateOptions → (now : ℕ) → Bool
unfolding lock_not_held from_exact_match
may_transition existing options now = elim options.expected_from [
  | none ↦ true
  | some expected ↦ from_exact_match existing expected || lock_not_held existing now
]

abbrev pub transitioned : TenantState → SetStateOptions → ℕ → TenantRecord → TenantRecord
transitioned next options now existing = record existing {
  state = next;
  updated_at = now;
  claim_expires_at = options.claim_expires_at;
  claimed_by = options.claimed_by;
  onboarding_progress = record existing.onboarding_progress {
    last_error = overlay options.last_error existing.onboarding_progress.last_error;
  };
}

-- `checked_at` and `now` are the readings of the claim's check and of `updatedAt`.
unfoldable pub set_state :
    Text → TenantState → SetStateOptions → (checked_at now : ℕ) → Exec Tenants TenantRecord
unfolding require_record may_transition
set_state ref next options checked_at now records = elim (require_record ref records) [
  | err e ↦ (err e, records)
  | ok existing ↦
      if may_transition existing options checked_at
      then (
        ok (transitioned next options now existing),
        insert ref (transitioned next options now existing) records,
      )
      else (
        err (cannot_transition ref existing.state (or_else options.expected_from created)),
        records,
      )
]

abbrev pub with_scenario : Text → Bool → ℕ → TenantRecord → TenantRecord
with_scenario scenario passed now existing = record existing {
  onboarding_progress = record existing.onboarding_progress {
    scenarios =
        insert scenario (if passed then scenario_passed else scenario_failed)
          existing.onboarding_progress.scenarios;
  };
  updated_at = now;
}

unfoldable pub record_onboarding_progress : Text → Text → Bool → (now : ℕ) → Exec Tenants (Unit {0})
unfolding require_record
record_onboarding_progress ref scenario passed now =
    update ref (with_scenario scenario passed now) >> pure tt

abbrev pub with_expiry : ℕ → ℕ → TenantRecord → TenantRecord
with_expiry at now existing = record existing {
  production_certificate_expires_at = some at;
  updated_at = now;
}

unfoldable pub set_production_expiry : Text → ℕ → (now : ℕ) → Exec Tenants (Unit {0})
unfolding require_record
set_production_expiry ref at now = update ref (with_expiry at now) >> pure tt

abbrev pub deleted : ℕ → ℕ → TenantRecord → TenantRecord
deleted at now existing = record existing {
  state = revoked;
  deleted_at = some at;
  updated_at = now;
}

unfoldable pub soft_delete : Text → (deleted_at updated_at : ℕ) → Exec Tenants (Unit {0})
soft_delete ref deleted_at updated_at records = elim (lookup ref records) [
  | none ↦ (err (unknown_tenant ref), records)
  | some existing ↦ elim existing.deleted_at [
    | some at ↦ (err (already_deleted ref), records)
    | none ↦ (ok tt, insert ref (deleted deleted_at updated_at existing) records)
  ]
]
