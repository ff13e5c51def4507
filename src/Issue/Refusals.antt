-- ===== src/Issue/Refusals.antt =====
-- What the dispatcher refuses before it touches the storage.
use dokhna_tech_zatca.Prelude.{
  ◌≡◌, ◌≢◌, ◌⊎◌, inl, inr, refl, true, false, none, arith, Bool-cases, Option-cases,
}
use dokhna_tech_zatca.Prelude.Eq.{◌==◌}
use dokhna_tech_zatca.Prelude.Text.{Text, text_eq}
use dokhna_tech_zatca.Prelude.Exec.{ok, err}
use dokhna_tech_zatca.Errors.{validation_error, Result}
use dokhna_tech_zatca.Egs.{EgsUnitInfo}
use dokhna_tech_zatca.Storage.{InvoiceKind, TenantScope, StorageAdapter}
use dokhna_tech_zatca.Issue.{Builders, assert_scope, issue_phase2, issue_phase1}
use dokhna_tech_zatca.Issue.Dispatch.{
  IssueInvoiceArgs, require_signing, issue_invoice, dispatch, is_phase2, dispatch-phase2,
  dispatch-phase1,
}

-- The EGS unit is not the one of the scope.
abbrev pub Mismatches : EgsUnitInfo → TenantScope → Type 0
Mismatches egs scope = (egs.uuid ≢ scope.egs_uuid) ⊎ (egs.vat_number ≢ scope.vat_number)

abbrev pub IsValidationError : {A : Type 0} → Result A → Type 0
IsValidationError (err (validation_error m)) = Unit
IsValidationError _ = ⊥

refusal :
    {A : Type 0} (r : Result A) → IsValidationError r → (m : Text) × (r ≡ err (validation_error m))
refusal (err (validation_error m)) h = (m, refl)
refusal (ok a) h = absurd h
refusal (err _) h = absurd h

assert_scope_mismatch :
    (egs : EgsUnitInfo) (scope : TenantScope)
    → Mismatches egs scope
    → IsValidationError (assert_scope egs scope)
unfolding assert_scope
assert_scope_mismatch egs scope h = elim (Bool-cases (egs.uuid == scope.egs_uuid)) [
  | inr other ↦ ground arith
  | inl same ↦ elim (Bool-cases (egs.vat_number == scope.vat_number)) [
    | inr other ↦ ground arith
    | inl equal ↦ absurd (
        ground (
          arith,
          text_eq.beq_iff egs.uuid scope.egs_uuid,
          text_eq.beq_iff egs.vat_number scope.vat_number,
        ))
  ]
]

-- A Phase 2 kind without signing material, or an EGS unit that is not the scope's.
abbrev pub IsRefused : {Details : Type 0} → IssueInvoiceArgs Details → Type 0
IsRefused args =
    ((is_phase2 args.input.kind ≡ true) × (args.signing ≡ none))
    ⊎ Mismatches args.input.egs_info args.scope

module _ {S Details : Type 0} (storage : StorageAdapter S) (builders : Builders Details) where
  refused_phase2 :
      (kind : InvoiceKind) (args : IssueInvoiceArgs Details) (s : S)
      → is_phase2 kind ≡ true
      → (args.signing ≡ none) ⊎ Mismatches args.input.egs_info args.scope
      → IsValidationError (dispatch storage builders kind args s).0
        × ((dispatch storage builders kind args s).1 ≡ s)
  unfolding require_signing issue_phase2
  refused_phase2 kind args s h (inl unsigned) =
      rw (dispatch-phase2 storage builders kind args h, unsigned) (tt, refl)
  refused_phase2 kind args s h (inr differ) = elim (Option-cases args.signing) [
    | inl unsigned ↦ rw (dispatch-phase2 storage builders kind args h, unsigned) (tt, refl)
    | inr (signing, signed) ↦
        let (m, e) =
          refusal (assert_scope args.input.egs_info args.scope)
            (assert_scope_mismatch args.input.egs_info args.scope differ) in
        rw (dispatch-phase2 storage builders kind args h, signed, e) (tt, refl)
  ]

  refused_phase1 :
      (kind : InvoiceKind) (args : IssueInvoiceArgs Details) (s : S)
      → is_phase2 kind ≡ false
      → Mismatches args.input.egs_info args.scope
      → IsValidationError (dispatch storage builders kind args s).0
        × ((dispatch storage builders kind args s).1 ≡ s)
  unfolding issue_phase1
  refused_phase1 kind args s h differ =
      let (m, e) =
        refusal (assert_scope args.input.egs_info args.scope)
          (assert_scope_mismatch args.input.egs_info args.scope differ) in
      rw (dispatch-phase1 storage builders kind args h, e) (tt, refl)

  -- Over any backend: an input of a Phase 2 kind without signing material, and an input whose EGS
  -- unit is not the scope's, is refused with a validation error, and the storage is as it was: no
  -- sequence is consumed and nothing is recorded.
  pub issue_invoice_refused :
      (args : IssueInvoiceArgs Details) (s : S)
      → IsRefused args
      → IsValidationError (issue_invoice storage builders args s).0
        × ((issue_invoice storage builders args s).1 ≡ s)
  unfolding issue_invoice
  issue_invoice_refused args s (inl (kind, unsigned)) =
      refused_phase2 args.input.kind args s kind (inl unsigned)
  issue_invoice_refused args s (inr differ) = elim (Bool-cases (is_phase2 args.input.kind)) [
    | inl yes2 ↦ refused_phase2 args.input.kind args s yes2 (inr differ)
    | inr no2 ↦ refused_phase1 args.input.kind args s no2 differ
  ]
