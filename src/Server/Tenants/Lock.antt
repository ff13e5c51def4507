-- ===== src/Server/Tenants/Lock.antt =====
-- The onboarding lock: `setState` with an expected state is a compare-and-set with a lease.
use dokhna_tech_zatca.Prelude.{
  ℕ, ◌<◌, ◌≡◌, ◌≢◌, ◌∙◌, inl, inr, refl, false, Bool, none, some, arith, or_else, Bool-cases,
  Option-cases, if◌then◌else◌,
}
use dokhna_tech_zatca.Prelude.Eq.{◌==◌}
use dokhna_tech_zatca.Prelude.Text.{Text, text_eq}
use dokhna_tech_zatca.Prelude.Dict.{
  lookup, lookup-insert, lookup-insert_self, lookup-insert_ne, beq_refl,
}
use dokhna_tech_zatca.Prelude.Exec.{ok, err, Result-cases, pure, ◌>>◌}
use dokhna_tech_zatca.Errors.{ZatcaError}
use dokhna_tech_zatca.Server.Tenants.{
  TenantState, onboarding, state_eq, TenantRecord, CreateTenantInput, PatchableTenantFields,
  SetStateOptions,
}
use dokhna_tech_zatca.Server.Tenants.Store.{
  Tenants, create, patch, set_state, record_onboarding_progress, set_production_expiry, soft_delete,
  cannot_transition, require_record, may_transition, transitioned, update, patched, with_scenario,
  with_expiry, new_record, deleted,
}

-- `ref` is claimed until `deadline`.
pub record Holds (ref : Text) (deadline : ℕ) (s : Tenants) : Type 0 where
  pub claim : TenantRecord
  pub there : lookup ref s ≡ some claim
  pub live : claim.deleted_at ≡ none
  pub taken : claim.state ≡ onboarding
  pub lease : claim.claim_expires_at ≡ some deadline

-- A call that respects the lock of `ref` until `deadline`: for `ref` itself there is no deletion,
-- and `setState` names an expected state and reads the clock before the deadline.
pub data Polite (ref : Text) (deadline : ℕ) (s : Tenants) : Tenants → Type 0 where
  creates :
      (input : CreateTenantInput) (generated : Text) (now : ℕ)
      → Polite ref deadline s (create input generated now s).1
  patches :
      (r : Text) (fields : PatchableTenantFields) (now : ℕ)
      → Polite ref deadline s (patch r fields now s).1
  progresses :
      (r scenario : Text) (passed : Bool) (now : ℕ)
      → Polite ref deadline s (record_onboarding_progress r scenario passed now s).1
  renews : (r : Text) (at now : ℕ) → Polite ref deadline s (set_production_expiry r at now s).1
  deletes : (r : Text) (at now : ℕ) → r ≢ ref → Polite ref deadline s (soft_delete r at now s).1
  sets_other :
      (r : Text) (next : TenantState) (o : SetStateOptions) (checked now : ℕ)
      → r ≢ ref
      → Polite ref deadline s (set_state r next o checked now s).1
  contends :
      (next expected : TenantState) (o : SetStateOptions) (checked now : ℕ)
      → o.expected_from ≡ some expected
      → checked < deadline
      → Polite ref deadline s (set_state ref next o checked now s).1

pub data Polites (ref : Text) (deadline : ℕ) (s : Tenants) : Tenants → Type 0 where
  at_rest : Polites ref deadline s s
  after :
      {t u : Tenants}
      → Polites ref deadline s t
      → Polite ref deadline t u
      → Polites ref deadline s u

pub require_record-live :
    (ref : Text) (s : Tenants) (r : TenantRecord)
    → lookup ref s ≡ some r
    → r.deleted_at ≡ none
    → require_record ref s ≡ ok r
unfolding require_record
require_record-live ref s r there live = ground arith

may_transition_held :
    (r : TenantRecord) (o : SetStateOptions) (expected : TenantState) (deadline now : ℕ)
    → r.state ≡ onboarding
    → r.claim_expires_at ≡ some deadline
    → o.expected_from ≡ some expected
    → now < deadline
    → may_transition r o now ≡ false
unfolding may_transition
may_transition_held r o expected deadline now taken lease named early =
    ground (arith, state_eq.beq_iff r.state expected, state_eq.beq_iff expected onboarding)

-- While the lock is held, a contender is refused with a conflict.
contender_refused :
    (ref : Text) (deadline : ℕ) (s : Tenants) (h : Holds ref deadline s)
    (next expected : TenantState) (o : SetStateOptions) (checked now : ℕ)
    → o.expected_from ≡ some expected
    → checked < deadline
    → set_state ref next o checked now s ≡ (err (cannot_transition ref onboarding expected), s)
unfolding set_state
contender_refused ref deadline s h next expected o checked now named early =
    rw
      (
        set_state,
        require_record-live ref s h.claim h.there h.live,
        may_transition_held h.claim o expected deadline checked h.taken h.lease named early,
        h.taken,
        named,
      )
      refl

-- A write that keeps what the lock rests on.
abbrev Keeps : (TenantRecord → TenantRecord) → Type 0
Keeps f =
    (r : TenantRecord)
    → ((f r).deleted_at ≡ r.deleted_at)
      × ((f r).state ≡ r.state)
      × ((f r).claim_expires_at ≡ r.claim_expires_at)

-- A call that returns nothing leaves the state of the update.
pub then-state :
    (s : Tenants) (r : Text) (f : TenantRecord → TenantRecord)
    → ((update r f >> pure {E = ZatcaError} tt) s).1 ≡ (update r f s).1
then-state s r f = elim (Result-cases (update r f s).0) [
  | inl (_, done) ↦ rw done refl
  | inr (_, thrown) ↦ rw thrown refl
]

lookup-update :
    (ref r : Text) (f : TenantRecord → TenantRecord) (s : Tenants) (claim : TenantRecord)
    → lookup ref s ≡ some claim
    → claim.deleted_at ≡ none
    → lookup ref (update r f s).1 ≡ (if r == ref then some (f claim) else some claim)
unfolding require_record
lookup-update ref r f s claim there live = elim (Bool-cases (r == ref)) [
  | inl same ↦
      let r≡ref = (text_eq.beq_iff r ref).0 same in
      rw (r≡ref) (ground (arith, lookup-insert ref ref (f claim) s, beq_refl ref))
  | inr other ↦ elim (Option-cases (lookup r s)) [
    | inl missing ↦ ground arith
    | inr (old, found) ↦ ground (arith, lookup-insert r ref (f old) s)
  ]
]

update-Holds :
    (ref r : Text) (f : TenantRecord → TenantRecord) (deadline : ℕ) (s : Tenants)
    → Keeps f
    → Holds ref deadline s
    → Holds ref deadline (update r f s).1
update-Holds ref r f deadline s keeps h = elim (Bool-cases (r == ref)) [
  | inl same ↦
      let (live, taken, lease) = keeps h.claim in
      record {
        claim = f h.claim;
        there = rw (lookup-update ref r f s h.claim h.there h.live, same) refl;
        live = live ∙ h.live;
        taken = taken ∙ h.taken;
        lease = lease ∙ h.lease;
      }
  | inr other ↦ record {
    claim = h.claim;
    there = rw (lookup-update ref r f s h.claim h.there h.live, other) refl;
    live = h.live;
    taken = h.taken;
    lease = h.lease;
  }
]

Holds-same :
    (ref : Text) (deadline : ℕ) (s t : Tenants)
    → lookup ref t ≡ lookup ref s
    → Holds ref deadline s
    → Holds ref deadline t
Holds-same ref deadline s t same h = record {
  claim = h.claim;
  there = same ∙ h.there;
  live = h.live;
  taken = h.taken;
  lease = h.lease;
}

pub create-lookup :
    (ref : Text) (input : CreateTenantInput) (generated : Text) (now : ℕ) (s : Tenants)
    (old : TenantRecord)
    → lookup ref s ≡ some old
    → lookup ref (create input generated now s).1 ≡ lookup ref s
unfolding create
create-lookup ref input generated now s old there =
    let new = or_else input.tenant_ref generated in
    ground (arith, text_eq.beq_iff new ref, lookup-insert new ref (new_record new input now) s)

soft_delete-lookup :
    (ref r : Text) (at now : ℕ) (s : Tenants)
    → r ≢ ref
    → lookup ref (soft_delete r at now s).1 ≡ lookup ref s
unfolding soft_delete
soft_delete-lookup ref r at now s differ = elim (Option-cases (lookup r s)) [
  | inl missing ↦ ground arith
  | inr (old, found) ↦ ground (arith, lookup-insert_ne r ref (deleted at now old) s differ)
]

set_state-lookup :
    (ref r : Text) (next : TenantState) (o : SetStateOptions) (checked now : ℕ) (s : Tenants)
    → r ≢ ref
    → lookup ref (set_state r next o checked now s).1 ≡ lookup ref s
unfolding set_state
set_state-lookup ref r next o checked now s differ = elim (Result-cases (require_record r s)) [
  | inr (e, refused) ↦ rw (set_state, refused) refl
  | inl (old, found) ↦ elim (Bool-cases (may_transition old o checked)) [
    | inl may ↦
        rw (set_state, found, may) (lookup-insert_ne r ref (transitioned next o now old) s differ)
    | inr not_now ↦ rw (set_state, found, not_now) refl
  ]
]

Polite-Holds :
    {ref : Text} {deadline : ℕ} {s t : Tenants}
    → Holds ref deadline s
    → Polite ref deadline s t
    → Holds ref deadline t
unfolding patch record_onboarding_progress set_production_expiry
Polite-Holds {ref} {deadline} {s} h (creates input generated now) =
    Holds-same ref deadline s _ (create-lookup ref input generated now s h.claim h.there) h
Polite-Holds {ref} {deadline} {s} h (patches r fields now) =
    update-Holds ref r (patched fields now) deadline s (λ old. (refl, refl, refl)) h
Polite-Holds {ref} {deadline} {s} h (progresses r scenario passed now) =
    rw (then-state s r (with_scenario scenario passed now)) (
      update-Holds ref r (with_scenario scenario passed now) deadline s (λ old. (refl, refl, refl))
        h)
Polite-Holds {ref} {deadline} {s} h (renews r at now) =
    rw (then-state s r (with_expiry at now))
      (update-Holds ref r (with_expiry at now) deadline s (λ old. (refl, refl, refl)) h)
Polite-Holds {ref} {deadline} {s} h (deletes r at now differ) =
    Holds-same ref deadline s _ (soft_delete-lookup ref r at now s differ) h
Polite-Holds {ref} {deadline} {s} h (sets_other r next o checked now differ) =
    Holds-same ref deadline s _ (set_state-lookup ref r next o checked now s differ) h
Polite-Holds {ref} {deadline} {s} h (contends next expected o checked now named early) =
    rw (contender_refused ref deadline s h next expected o checked now named early) h

Polites-Holds :
    {ref : Text} {deadline : ℕ} {s t : Tenants}
    → Holds ref deadline s
    → Polites ref deadline s t
    → Holds ref deadline t
Polites-Holds h at_rest = h
Polites-Holds h (after before step) = Polite-Holds (Polites-Holds h before) step

set_state-Holds :
    (ref : Text) (o : SetStateOptions) (checked now deadline : ℕ) (s : Tenants) (r : TenantRecord)
    → (set_state ref onboarding o checked now s).0 ≡ ok r
    → o.claim_expires_at ≡ some deadline
    → Holds ref deadline (set_state ref onboarding o checked now s).1
unfolding set_state require_record
set_state-Holds ref o checked now deadline s r won lease = elim (Option-cases (lookup ref s)) [
  | inl missing ↦ absurd (ground arith)
  | inr (old, found) ↦ elim (Option-cases old.deleted_at) [
    | inr (at, gone) ↦ absurd (ground arith)
    | inl live ↦ elim (Bool-cases (may_transition old o checked)) [
      | inr refused ↦ absurd (ground arith)
      | inl may ↦
          rw (set_state, require_record-live ref s old found live, may)
            (record {
              claim = transitioned onboarding o now old;
              there = lookup-insert_self ref (transitioned onboarding o now old) s;
              live = live;
              taken = refl;
              lease = lease;
            })
    ]
  ]
]

-- Mutual exclusion of onboarding: once `setState` has moved a tenant to `onboarding` with a claim,
-- every further `setState` of it that names an expected state, whichever, and reads the clock
-- before the claim expires throws a conflict and changes nothing, after any calls on other tenants
-- and any patches, progress reports, expiry renewals and refused contenders on this one.
pub set_state_exclusive :
    (ref : Text) (o : SetStateOptions) (checked now deadline : ℕ) (s t : Tenants) (r : TenantRecord)
    (next expected : TenantState) (o' : SetStateOptions) (checked' now' : ℕ)
    → (set_state ref onboarding o checked now s).0 ≡ ok r
    → o.claim_expires_at ≡ some deadline
    → Polites ref deadline (set_state ref onboarding o checked now s).1 t
    → o'.expected_from ≡ some expected
    → checked' < deadline
    → set_state ref next o' checked' now' t ≡ (err (cannot_transition ref onboarding expected), t)
set_state_exclusive ref o checked now deadline s t r next expected o' checked' now' won lease
      between named early =
    contender_refused ref deadline t
      (Polites-Holds (set_state-Holds ref o checked now deadline s r won lease) between) next
      expected o' checked' now' named early
