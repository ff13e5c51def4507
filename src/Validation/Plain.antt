-- ===== src/Validation/Plain.antt =====
-- Validated scopes have keys that do not collide, so validated tenants are isolated.
use dokhna_tech_zatca.Prelude.{
  ℕ, ◌≡◌, ◌≢◌, refl, true, false, Bool, [], ◌∷◌, All, arith, and-eq-true, not, ◌&&◌, Bool-cases,
  inl, inr,
}
use dokhna_tech_zatca.Prelude.Text.{Text}
use dokhna_tech_zatca.Prelude.Text.Split.{Lacks}
use dokhna_tech_zatca.Prelude.Exec.{ok}
use dokhna_tech_zatca.Storage.{TenantScope}
use dokhna_tech_zatca.Storage.Memory.{InvoiceNumberFormatter, MemoryStorage}
use dokhna_tech_zatca.Storage.Memory.Keys.{IsPlain}
use dokhna_tech_zatca.Storage.Memory.Isolation.{SameView, CallOn, CallOn-SameView}
use dokhna_tech_zatca.Validation.{
  Pattern, matches, vat_number_regex, uuid_v4_regex, is_vat_number, as_vat_number, is_uuid_v4,
  as_egs_uuid,
}

-- A test that a colon fails.
abbrev Refuses : (ℕ → Bool) → Type 0
Refuses p = p b':' ≡ false

passes-ne : (p : ℕ → Bool) (c : ℕ) → Refuses p → p c ≡ true → c ≢ b':'
passes-ne p c h passed e = absurd (cc)

matches-Lacks : (ps : Pattern) (s : Text) → All Refuses ps → matches ps s ≡ true → Lacks b':' s
unfolding matches
matches-Lacks [] [] h m = tt
matches-Lacks [] (c ∷ s) h m = cc
matches-Lacks (p ∷ ps) [] h m = cc
matches-Lacks (p ∷ ps) (c ∷ s) (r, h) m =
    let (now, later) = and-eq-true (p c) (matches ps s) m in
    (passes-ne p c r now, matches-Lacks ps s h later)

abbrev all_refuse : Pattern → Bool
all_refuse [] = true
all_refuse (p ∷ ps) = not (p b':') && all_refuse ps

all_refuse-Refuses : (ps : Pattern) → all_refuse ps ≡ true → All Refuses ps
all_refuse-Refuses [] h = tt
all_refuse-Refuses (p ∷ ps) h =
    let (first, rest) = and-eq-true (not (p b':')) (all_refuse ps) h in
    (ground arith, all_refuse-Refuses ps rest)

vat_number_regex-Refuses : All Refuses vat_number_regex
unfolding vat_number_regex
vat_number_regex-Refuses = all_refuse-Refuses vat_number_regex refl

uuid_v4_regex-Refuses : All Refuses uuid_v4_regex
unfolding uuid_v4_regex
uuid_v4_regex-Refuses = all_refuse-Refuses uuid_v4_regex refl

as_vat_number-Lacks : (value vat : Text) → as_vat_number value ≡ ok vat → Lacks b':' vat
unfolding as_vat_number is_vat_number
as_vat_number-Lacks value vat h = elim (Bool-cases (matches vat_number_regex value)) [
  | inr refused ↦ absurd (ground arith)
  | inl passed ↦
      let value≡vat : value ≡ vat = ground arith in
      rw value≡vat at (matches-Lacks vat_number_regex value vat_number_regex-Refuses passed)
]

as_egs_uuid-Lacks : (value uuid : Text) → as_egs_uuid value ≡ ok uuid → Lacks b':' uuid
unfolding as_egs_uuid is_uuid_v4
as_egs_uuid-Lacks value uuid h = elim (Bool-cases (matches uuid_v4_regex value)) [
  | inr refused ↦ absurd (ground arith)
  | inl passed ↦
      let value≡uuid : value ≡ uuid = ground arith in
      rw value≡uuid at (matches-Lacks uuid_v4_regex value uuid_v4_regex-Refuses passed)
]

-- What `asVATNumber` and `asEGSUuid` make of some input.
pub record IsValidated (scope : TenantScope) : Type 0 where
  pub vat_input : Text
  pub egs_input : Text
  pub vat : as_vat_number vat_input ≡ ok scope.vat_number
  pub egs : as_egs_uuid egs_input ≡ ok scope.egs_uuid

pub IsValidated-IsPlain : (scope : TenantScope) → IsValidated scope → IsPlain scope
IsValidated-IsPlain scope h = record {
  vat = as_vat_number-Lacks h.vat_input scope.vat_number h.vat;
  egs = as_egs_uuid-Lacks h.egs_input scope.egs_uuid h.egs;
}

-- Two different scopes whose VAT numbers and UUIDs went through the validators do not see one
-- another in the in-memory adapter: no call for the one changes what `getPreviousHash`,
-- `loadInvoice` and the next `incrementCounter` return for the other.
pub validated-SameView :
    (a b : TenantScope) {format : InvoiceNumberFormatter} {s t : MemoryStorage}
    → IsValidated a
    → IsValidated b
    → a ≢ b
    → CallOn format a s t
    → SameView b s t
validated-SameView a b va vb =
    CallOn-SameView a b (IsValidated-IsPlain a va) (IsValidated-IsPlain b vb)
