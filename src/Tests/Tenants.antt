-- ===== src/Tests/Tenants.antt =====
-- Concrete runs of the tenant store.
use dokhna_tech_zatca.Prelude.{◌≡◌, refl, none, some, [], ◌∷◌, arith}
use dokhna_tech_zatca.Prelude.Eq.{list_beq}
use dokhna_tech_zatca.Prelude.Text.{Text, text_eq, text}
use dokhna_tech_zatca.Prelude.Dict.{lookup}
use dokhna_tech_zatca.Prelude.Exec.{err}
use dokhna_tech_zatca.Server.Tenants.{
  created, onboarding, sandbox, TenantRecord, CreateTenantInput, SetStateOptions,
}
use dokhna_tech_zatca.Server.Tenants.Store.{
  Tenants, new_record, set_state, soft_delete, cannot_transition, require_record, may_transition,
  lock_not_held, from_exact_match, transitioned,
}
use dokhna_tech_zatca.Server.Tenants.Lock.{set_state_exclusive}
use dokhna_tech_zatca.Server.Tenants.Lock
use dokhna_tech_zatca.Server.Tenants.History.{
  Evolves, IsGone, at_rest, after, sets, Reach-Evolves, soft_delete-IsGone,
}

abbrev pub ref : Text
ref = b't' ∷ []

abbrev pub input : CreateTenantInput
input = record {
  tenant_ref = some ref;
  vat_number = b'3' ∷ b'3' ∷ [];
  egs_uuid = b'a' ∷ [];
  vat_name = text "Shop";
  crn = text "1010101010";
  branch_name = text "Main";
  branch_industry = none;
  location = record {
    city_name = text "Riyadh";
    city_subdivision = text "North";
    street = text "King";
    plot_identification = text "0000";
    building = text "0001";
    postal_zone = text "31952";
  };
  environment = sandbox;
  label = none;
  callback_url = none;
}

abbrev tenant : TenantRecord
tenant = new_record ref input 1

abbrev registered : Tenants
registered = (ref, tenant) ∷ []

abbrev claiming : SetStateOptions
claiming = record {
  expected_from = some created;
  claimed_by = some (b'i' ∷ []);
  claim_expires_at = some 100;
  last_error = none;
}

abbrev stealing : SetStateOptions
stealing = record claiming { expected_from = some onboarding }

abbrev locked : Tenants
locked = (set_state ref onboarding claiming 2 2 registered).1

set_state_exclusive_example :
    set_state ref onboarding stealing 50 50 locked
    ≡ (err (cannot_transition ref onboarding onboarding), locked)
unfolding set_state require_record may_transition lock_not_held from_exact_match lookup list_beq
set_state_exclusive_example =
    set_state_exclusive ref claiming 2 2 100 registered locked
      (transitioned onboarding claiming 2 tenant) onboarding onboarding stealing 50 50 refl refl
      Lock.at_rest refl (ground arith)

Reach-Evolves_example : (b : TenantRecord) × (lookup ref locked ≡ some b) × Evolves tenant b
unfolding lookup list_beq
Reach-Evolves_example =
    Reach-Evolves ref tenant registered locked refl
      (after at_rest (sets ref onboarding claiming 2 2))

soft_delete-IsGone_example : IsGone ref (soft_delete ref 7 7 registered).1
unfolding soft_delete lookup list_beq
soft_delete-IsGone_example =
    soft_delete-IsGone ref 7 7 registered (soft_delete ref 7 7 registered).1 refl at_rest
