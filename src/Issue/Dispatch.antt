-- ===== src/Issue/Dispatch.antt =====
-- packages/core/src/issue/dispatch.ts: the dispatcher over the kinds of input.
use dokhna_tech_zatca.Prelude.{ℕ, ◌≡◌, refl, Bool, true, false, Option, none, some, ◌++◌}
use dokhna_tech_zatca.Prelude.Text.{Text, text}
use dokhna_tech_zatca.Prelude.Exec.{ok, err, pure, lift, ◌>>=◌}
use dokhna_tech_zatca.Errors.{validation_error, Result, Exec}
use dokhna_tech_zatca.Storage.{
  InvoiceKind, simplified_tax_invoice, standard_tax_invoice, simplified_credit_note,
  standard_credit_note, simplified_debit_note, standard_debit_note, phase1_invoice,
  phase1_credit_note, TenantScope, StorageAdapter,
}
use dokhna_tech_zatca.Issue.{
  InvoiceInput, Signing, Builders, IssueArgs, IssuedInvoice, IssuedPhase1Invoice, issue_phase2,
  issue_phase1, issue_simplified_tax_invoice, issue_standard_tax_invoice,
  issue_simplified_credit_note, issue_standard_credit_note, issue_simplified_debit_note,
  issue_standard_debit_note, issue_phase1_invoice, issue_phase1_credit_note,
}

pub record IssueInvoiceArgs (Details : Type 0) : Type 0 where
  pub input : InvoiceInput Details
  pub scope : TenantScope
  pub signing : Option Signing
  pub random_uuid : Text
  pub now : ℕ

pub data Issued : Type 0 where
  phase2 : IssuedInvoice → Issued
  phase1 : IssuedPhase1Invoice → Issued

-- The discriminator as the source spells it.
unfoldable pub kind_name : InvoiceKind → Text
kind_name simplified_tax_invoice = text "simplified-tax-invoice"
kind_name standard_tax_invoice = text "standard-tax-invoice"
kind_name simplified_credit_note = text "simplified-credit-note"
kind_name standard_credit_note = text "standard-credit-note"
kind_name simplified_debit_note = text "simplified-debit-note"
kind_name standard_debit_note = text "standard-debit-note"
kind_name phase1_invoice = text "phase1-invoice"
kind_name phase1_credit_note = text "phase1-credit-note"

unfoldable pub require_signing : InvoiceKind → Option Signing → Result Signing
require_signing kind none = err (
    validation_error (
      text "Phase 2 invoice kind \""
      ++ (kind_name kind ++ text "\" requires signing.certificate + signing.privateKey.")))
require_signing kind (some signing) = ok signing

-- `stripStorageFields` and `baseShared`: the storage-managed fields of the input are dropped, and
-- no `invoiceId` is passed on.
abbrev pub issuer_args : {Details : Type 0} → IssueInvoiceArgs Details → IssueArgs Details
issuer_args args = record {
  input = args.input.details;
  egs_info = args.input.egs_info;
  scope = args.scope;
  invoice_id = none;
  random_uuid = args.random_uuid;
  now = args.now;
}

module _ {S Details : Type 0} (storage : StorageAdapter S) (builders : Builders Details) where
  unfoldable pub dispatch : InvoiceKind → IssueInvoiceArgs Details → Exec S Issued
  dispatch simplified_tax_invoice args = do
    signing ← lift (require_signing simplified_tax_invoice args.signing)
    issued ← issue_simplified_tax_invoice storage builders (issuer_args args) signing
    pure (phase2 issued)
  dispatch standard_tax_invoice args = do
    signing ← lift (require_signing standard_tax_invoice args.signing)
    issued ← issue_standard_tax_invoice storage builders (issuer_args args) signing
    pure (phase2 issued)
  dispatch simplified_credit_note args = do
    signing ← lift (require_signing simplified_credit_note args.signing)
    issued ← issue_simplified_credit_note storage builders (issuer_args args) signing
    pure (phase2 issued)
  dispatch standard_credit_note args = do
    signing ← lift (require_signing standard_credit_note args.signing)
    issued ← issue_standard_credit_note storage builders (issuer_args args) signing
    pure (phase2 issued)
  dispatch simplified_debit_note args = do
    signing ← lift (require_signing simplified_debit_note args.signing)
    issued ← issue_simplified_debit_note storage builders (issuer_args args) signing
    pure (phase2 issued)
  dispatch standard_debit_note args = do
    signing ← lift (require_signing standard_debit_note args.signing)
    issued ← issue_standard_debit_note storage builders (issuer_args args) signing
    pure (phase2 issued)
  dispatch phase1_invoice args = do
    issued ← issue_phase1_invoice storage builders (issuer_args args)
    pure (phase1 issued)
  dispatch phase1_credit_note args = do
    issued ← issue_phase1_credit_note storage builders (issuer_args args)
    pure (phase1 issued)

  unfoldable pub issue_invoice : IssueInvoiceArgs Details → Exec S Issued
  unfolding dispatch
  issue_invoice args = dispatch args.input.kind args

  -- What the dispatcher comes to, for the six kinds and for the two.
  abbrev pub dispatched_phase2 : InvoiceKind → IssueInvoiceArgs Details → Exec S Issued
  dispatched_phase2 kind args = do
    signing ← lift (require_signing kind args.signing)
    issued ← issue_phase2 storage builders kind (issuer_args args) signing
    pure (phase2 issued)

  abbrev pub dispatched_phase1 : InvoiceKind → IssueInvoiceArgs Details → Exec S Issued
  dispatched_phase1 kind args = do
    issued ← issue_phase1 storage builders kind (issuer_args args)
    pure (phase1 issued)

abbrev pub is_phase2 : InvoiceKind → Bool
is_phase2 phase1_invoice = false
is_phase2 phase1_credit_note = false
is_phase2 _ = true

module _ {S Details : Type 0} (storage : StorageAdapter S) (builders : Builders Details) where
  pub dispatch-phase2 :
      (kind : InvoiceKind) (args : IssueInvoiceArgs Details)
      → is_phase2 kind ≡ true
      → dispatch storage builders kind args ≡ dispatched_phase2 storage builders kind args
  unfolding dispatch issue_simplified_tax_invoice issue_standard_tax_invoice
      issue_simplified_credit_note issue_standard_credit_note issue_simplified_debit_note
      issue_standard_debit_note
  dispatch-phase2 simplified_tax_invoice args h = refl
  dispatch-phase2 phase1_invoice args h = cc
  dispatch-phase2 phase1_credit_note args h = cc
  dispatch-phase2 _ args h = refl

  pub dispatch-phase1 :
      (kind : InvoiceKind) (args : IssueInvoiceArgs Details)
      → is_phase2 kind ≡ false
      → dispatch storage builders kind args ≡ dispatched_phase1 storage builders kind args
  unfolding dispatch issue_phase1_invoice issue_phase1_credit_note
  dispatch-phase1 phase1_invoice args h = refl
  dispatch-phase1 phase1_credit_note args h = refl
  dispatch-phase1 _ args h = cc
