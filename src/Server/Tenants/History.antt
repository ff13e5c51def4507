-- ===== src/Server/Tenants/History.antt =====
-- What no call of the tenant store can change.
use dokhna_tech_zatca.Prelude.{
  ℕ, ◌≡◌, ◌≢◌, ◌∙◌, inl, inr, refl, sym, ap, Bool, none, some, arith, or_else, Bool-cases,
  Option-cases,
}
use dokhna_tech_zatca.Prelude.Eq.{◌==◌}
use dokhna_tech_zatca.Prelude.Text.{Text, text_eq}
use dokhna_tech_zatca.Prelude.Dict.{lookup, insert, lookup-insert, lookup-insert_self}
use dokhna_tech_zatca.Prelude.Exec.{ok, err}
use dokhna_tech_zatca.Server.Tenants.{
  TenantState, TenantRecord, CreateTenantInput, PatchableTenantFields, SetStateOptions,
}
use dokhna_tech_zatca.Server.Tenants.Store.{
  Tenants, create, get, patch, set_state, record_onboarding_progress, set_production_expiry,
  soft_delete, unknown_tenant, already_exists, already_deleted, require_record, may_transition,
  transitioned, update, patched, with_scenario, with_expiry, deleted,
}
use dokhna_tech_zatca.Server.Tenants.Lock.{require_record-live, create-lookup, then-state}

-- Any call that writes.
pub data Step (s : Tenants) : Tenants → Type 0 where
  creates :
      (input : CreateTenantInput) (generated : Text) (now : ℕ)
      → Step s (create input generated now s).1
  patches : (r : Text) (fields : PatchableTenantFields) (now : ℕ) → Step s (patch r fields now s).1
  progresses :
      (r scenario : Text) (passed : Bool) (now : ℕ)
      → Step s (record_onboarding_progress r scenario passed now s).1
  renews : (r : Text) (at now : ℕ) → Step s (set_production_expiry r at now s).1
  deletes : (r : Text) (at now : ℕ) → Step s (soft_delete r at now s).1
  sets :
      (r : Text) (next : TenantState) (o : SetStateOptions) (checked now : ℕ)
      → Step s (set_state r next o checked now s).1

pub data Reach (s : Tenants) : Tenants → Type 0 where
  at_rest : Reach s s
  after : {t u : Tenants} → Reach s t → Step t u → Reach s u

-- The tenant is the same one, and a deleted record is not touched at all.
pub record Evolves (a b : TenantRecord) : Type 0 where
  pub tenant_ref : b.tenant_ref ≡ a.tenant_ref
  pub vat_number : b.vat_number ≡ a.vat_number
  pub egs_uuid : b.egs_uuid ≡ a.egs_uuid
  pub environment : b.environment ≡ a.environment
  pub created_at : b.created_at ≡ a.created_at
  pub frozen : a.deleted_at ≢ none → b ≡ a

Evolves-refl : (a : TenantRecord) → Evolves a a
Evolves-refl a = record {
  tenant_ref = refl;
  vat_number = refl;
  egs_uuid = refl;
  environment = refl;
  created_at = refl;
  frozen = λ h. refl;
}

Evolves-trans : (a b c : TenantRecord) → Evolves a b → Evolves b c → Evolves a c
Evolves-trans a b c h k = record {
  tenant_ref = k.tenant_ref ∙ h.tenant_ref;
  vat_number = k.vat_number ∙ h.vat_number;
  egs_uuid = k.egs_uuid ∙ h.egs_uuid;
  environment = k.environment ∙ h.environment;
  created_at = k.created_at ∙ h.created_at;
  frozen = λ gone.
      k.frozen (λ live. gone (ap (λ r. r.deleted_at) (sym (h.frozen gone)) ∙ live)) ∙ h.frozen gone;
}

same_tenant :
    (old new : TenantRecord)
    → old.deleted_at ≡ none
    → new.tenant_ref ≡ old.tenant_ref
    → new.vat_number ≡ old.vat_number
    → new.egs_uuid ≡ old.egs_uuid
    → new.environment ≡ old.environment
    → new.created_at ≡ old.created_at
    → Evolves old new
same_tenant old new live p q r t u = record {
  tenant_ref = p;
  vat_number = q;
  egs_uuid = r;
  environment = t;
  created_at = u;
  frozen = λ gone. absurd (gone live);
}

-- Every write of the store is to a live record.
abbrev LiveEvolves : (TenantRecord → TenantRecord) → Type 0
LiveEvolves f = (old : TenantRecord) → old.deleted_at ≡ none → Evolves old (f old)

patched-LiveEvolves : (fields : PatchableTenantFields) (now : ℕ) → LiveEvolves (patched fields now)
patched-LiveEvolves fields now old live =
    same_tenant old (patched fields now old) live refl refl refl refl refl

with_scenario-LiveEvolves :
    (scenario : Text) (passed : Bool) (now : ℕ) → LiveEvolves (with_scenario scenario passed now)
with_scenario-LiveEvolves scenario passed now old live =
    same_tenant old (with_scenario scenario passed now old) live refl refl refl refl refl

with_expiry-LiveEvolves : (at now : ℕ) → LiveEvolves (with_expiry at now)
with_expiry-LiveEvolves at now old live =
    same_tenant old (with_expiry at now old) live refl refl refl refl refl

module _ (ref : Text) (a : TenantRecord) (s : Tenants) (there : lookup ref s ≡ some a) where
  -- The record of `ref`, as it is in `t`.
  abbrev Follows : Tenants → Type 0
  Follows t = (b : TenantRecord) × (lookup ref t ≡ some b) × Evolves a b

  stays : (t : Tenants) → lookup ref t ≡ lookup ref s → Follows t
  stays t same = (a, same ∙ there, Evolves-refl a)

  -- A write to the record of `r` in place.
  written :
      (r : Text) (old new : TenantRecord)
      → lookup r s ≡ some old
      → Evolves old new
      → Follows (insert r new s)
  written r old new found evolves = elim (Bool-cases (r == ref)) [
    | inl same ↦
        let r≡ref = (text_eq.beq_iff r ref).0 same in
        let found' : lookup ref s ≡ some old = ap (λ k. lookup k s) (sym r≡ref) ∙ found in
        let old≡a : old ≡ a = cc in (new, rw (lookup-insert, same) refl, rw old≡a at evolves)
    | inr other ↦ (a, rw (lookup-insert, other) there, Evolves-refl a)
  ]

  update-Follows :
      (r : Text) (f : TenantRecord → TenantRecord) → LiveEvolves f → Follows (update r f s).1
  unfolding require_record lookup
  update-Follows r f evolves = elim (Option-cases (lookup r s)) [
    | inl missing ↦ rw (update, require_record, missing) (stays s refl)
    | inr (old, found) ↦ elim (Option-cases old.deleted_at) [
      | inl live ↦
          rw (update, require_record-live r s old found live)
            (written r old (f old) found (evolves old live))
      | inr (at, gone) ↦ rw (update, require_record, found, gone) (stays s refl)
    ]
  ]

  soft_delete-Follows : (r : Text) (at now : ℕ) → Follows (soft_delete r at now s).1
  unfolding soft_delete lookup
  soft_delete-Follows r at now = elim (Option-cases (lookup r s)) [
    | inl missing ↦ rw (soft_delete, missing) (stays s refl)
    | inr (old, found) ↦ elim (Option-cases old.deleted_at) [
      | inl live ↦
          rw (soft_delete, found, live)
            (written r old (deleted at now old) found
              (same_tenant old (deleted at now old) live refl refl refl refl refl))
      | inr (earlier, gone) ↦ rw (soft_delete, found, gone) (stays s refl)
    ]
  ]

  set_state-Follows :
      (r : Text) (next : TenantState) (o : SetStateOptions) (checked now : ℕ)
      → Follows (set_state r next o checked now s).1
  unfolding set_state require_record lookup
  set_state-Follows r next o checked now = elim (Option-cases (lookup r s)) [
    | inl missing ↦ rw (set_state, require_record, missing) (stays s refl)
    | inr (old, found) ↦ elim (Option-cases old.deleted_at) [
      | inr (at, gone) ↦ rw (set_state, require_record, found, gone) (stays s refl)
      | inl live ↦ elim (Bool-cases (may_transition old o checked)) [
        | inl may ↦
            rw (set_state, require_record-live r s old found live, may)
              (written r old (transitioned next o now old) found
                (same_tenant old (transitioned next o now old) live refl refl refl refl refl))
        | inr refused ↦
            rw (set_state, require_record-live r s old found live, refused) (stays s refl)
      ]
    ]
  ]

  Step-Follows : {t : Tenants} → Step s t → Follows t
  unfolding patch record_onboarding_progress set_production_expiry
  Step-Follows (creates input generated now) =
      stays (create input generated now s).1 (create-lookup ref input generated now s a there)
  Step-Follows (patches r fields now) =
      update-Follows r (patched fields now) (patched-LiveEvolves fields now)
  Step-Follows (progresses r scenario passed now) =
      rw (then-state s r (with_scenario scenario passed now)) (
        update-Follows r (with_scenario scenario passed now)
          (with_scenario-LiveEvolves scenario passed now))
  Step-Follows (renews r at now) =
      rw (then-state s r (with_expiry at now))
        (update-Follows r (with_expiry at now) (with_expiry-LiveEvolves at now))
  Step-Follows (deletes r at now) = soft_delete-Follows r at now
  Step-Follows (sets r next o checked now) = set_state-Follows r next o checked now

-- Whatever calls are made on the store, a tenant's record stays under its reference with its
-- VAT number, EGS unit, environment and creation time, and once it is deleted nothing of it
-- changes any more.
pub Reach-Evolves :
    (ref : Text) (a : TenantRecord) (s t : Tenants)
    → lookup ref s ≡ some a
    → Reach s t
    → (b : TenantRecord) × (lookup ref t ≡ some b) × Evolves a b
Reach-Evolves ref a s t there at_rest = (a, there, Evolves-refl a)
Reach-Evolves ref a s t there (after before step) =
    let (b, found, h) = Reach-Evolves ref a s _ there before in
    let (c, last, k) = Step-Follows ref b _ found step in (c, last, Evolves-trans a b c h k)

-- What the calls on a deleted tenant come to.
pub record IsGone (ref : Text) (t : Tenants) : Type 0 where
  pub hidden : get ref t ≡ (ok none, t)
  pub no_patch :
      (fields : PatchableTenantFields) (now : ℕ)
      → patch ref fields now t ≡ (err (unknown_tenant ref), t)
  pub no_state :
      (state : TenantState) (o : SetStateOptions) (checked now : ℕ)
      → set_state ref state o checked now t ≡ (err (unknown_tenant ref), t)
  pub no_delete : (at now : ℕ) → soft_delete ref at now t ≡ (err (already_deleted ref), t)
  pub no_create :
      (input : CreateTenantInput) (generated : Text) (now : ℕ)
      → or_else input.tenant_ref generated ≡ ref
      → create input generated now t ≡ (err (already_exists ref), t)

IsGone-intro :
    (ref : Text) (t : Tenants) (a : TenantRecord) (at : ℕ)
    → lookup ref t ≡ some a
    → a.deleted_at ≡ some at
    → IsGone ref t
unfolding get patch set_state soft_delete create require_record
IsGone-intro ref t a at there gone = record {
  hidden = ground arith;
  no_patch = λ fields now. ground arith;
  no_state = λ state o checked now. ground arith;
  no_delete = λ at now. ground arith;
  no_create = λ input generated now same. ground arith;
}

-- Deletion is final: after a `softDelete` that did not throw, and whatever calls follow, `get`
-- returns null, `patch` and `setState` throw not_found, a second `softDelete` and a `create` under
-- the same reference throw a conflict, and none of them changes anything.
pub soft_delete-IsGone :
    (ref : Text) (at now : ℕ) (s t : Tenants)
    → (soft_delete ref at now s).0 ≡ ok tt
    → Reach (soft_delete ref at now s).1 t
    → IsGone ref t
unfolding soft_delete
soft_delete-IsGone ref at now s t done reached = elim (Option-cases (lookup ref s)) [
  | inl missing ↦ absurd (ground arith)
  | inr (old, found) ↦ elim (Option-cases old.deleted_at) [
    | inr (earlier, gone) ↦ absurd (ground arith)
    | inl live ↦
        let t' = (soft_delete ref at now s).1 in
        let there : lookup ref t' ≡ some (deleted at now old) =
          ground (arith, lookup-insert_self ref (deleted at now old) s) in
        let (b, last, h) = Reach-Evolves ref (deleted at now old) t' t there reached in
        IsGone-intro ref t b at last
          (ap (λ r. r.deleted_at) (h.frozen (λ e. absurd (ground arith))))
  ]
]
