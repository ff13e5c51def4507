-- ===== src/Issue.antt =====
-- packages/core/src/issue/: the eight issuers and the dispatcher, over any storage backend.
-- The builders of packages/core/src/invoices/ are an interface: they are given the completed input
-- and either return the built document or throw. What they read of the input beyond the fields
-- that the issuers set (line items, buyer, dates, cancelation) is the parameter `Details`.
pub mod Dispatch
pub mod Refusals
pub mod Failures
pub mod Outcome
pub mod Chains
pub mod Interleaving
use dokhna_tech_zatca.Prelude.{ℕ, Option, none, some, ◌++◌, or_else, if◌then◌else◌}
use dokhna_tech_zatca.Prelude.Eq.{◌==◌}
use dokhna_tech_zatca.Prelude.Text.{Text, text, text_eq}
use dokhna_tech_zatca.Prelude.Exec.{ok, err, pure, lift, ◌>>=◌, ◌>>◌}
use dokhna_tech_zatca.Errors.{validation_error, Result, Exec}
use dokhna_tech_zatca.Egs.{EgsUnitInfo}
use dokhna_tech_zatca.Storage.{
  InvoiceKind, simplified_tax_invoice, standard_tax_invoice, simplified_credit_note,
  standard_credit_note, simplified_debit_note, standard_debit_note, phase1_invoice,
  phase1_credit_note, pending, TenantScope, InvoiceRecord, Increment, StorageAdapter, base_pih,
}

-- An `InvoiceInput`, by its kind.
pub record InvoiceInput (Details : Type 0) : Type 0 where
  pub kind : InvoiceKind
  pub egs_info : EgsUnitInfo
  pub invoice_counter_number : ℕ
  pub invoice_serial_number : Text
  pub previous_invoice_hash : Text
  pub details : Details

pub record Signing : Type 0 where
  pub certificate : Text
  pub private_key : Text

pub record BuiltInvoice : Type 0 where
  pub invoice_xml : Text
  pub signed_xml : Text
  pub invoice_hash : Text
  pub qr_code : Text

pub record BuiltPhase1Invoice : Type 0 where
  pub invoice_xml : Text
  pub qr_code : Text

-- `new …Builder(input).build(…)`, with the class that the input's kind names.
pub record Builders (Details : Type 0) : Type 0 where
  pub build : InvoiceInput Details → Signing → Result BuiltInvoice
  pub build_phase1 : InvoiceInput Details → Result BuiltPhase1Invoice

-- `random_uuid` and `now` are what `randomUUID()` and `now()` return in this call.
pub record IssueArgs (Details : Type 0) : Type 0 where
  pub input : Details
  pub egs_info : EgsUnitInfo
  pub scope : TenantScope
  pub invoice_id : Option Text
  pub random_uuid : Text
  pub now : ℕ

pub record IssuedInvoice : Type 0 where
  pub invoice_xml : Text
  pub signed_xml : Text
  pub invoice_hash : Text
  pub qr_code : Text
  pub sequence : ℕ
  pub invoice_number : Text

pub record IssuedPhase1Invoice : Type 0 where
  pub invoice_xml : Text
  pub qr_code : Text
  pub sequence : ℕ
  pub invoice_number : Text

unfoldable pub mismatch : Text → Text → Text → Text → Text
mismatch field own scope_field theirs =
    text "egsInfo."
    ++ (field
        ++ (text " ("
            ++ (own
                ++ (text ") does not match scope."
                    ++ (scope_field ++ (text " (" ++ (theirs ++ text ").")))))))

unfoldable pub assert_scope : EgsUnitInfo → TenantScope → Result (Unit {0})
assert_scope egs_info scope =
    if egs_info.uuid == scope.egs_uuid
    then if egs_info.vat_number == scope.vat_number
      then ok tt
      else err (
          validation_error
            (mismatch (text "vatNumber") egs_info.vat_number (text "vatNumber") scope.vat_number))
    else err
        (validation_error (mismatch (text "uuid") egs_info.uuid (text "egsUuid") scope.egs_uuid))

abbrev pub invoice_id_of : {Details : Type 0} → IssueArgs Details → Text
invoice_id_of args = or_else args.invoice_id args.random_uuid

-- The storage handshake: the counter and the previous hash.
pub record Reservation : Type 0 where
  pub increment : Increment
  pub previous_invoice_hash : Text

abbrev pub full_input :
    {Details : Type 0} → InvoiceKind → IssueArgs Details → Reservation → InvoiceInput Details
full_input kind args held = record {
  kind = kind;
  egs_info = args.egs_info;
  invoice_counter_number = held.increment.sequence;
  invoice_serial_number = held.increment.invoice_number;
  previous_invoice_hash = held.previous_invoice_hash;
  details = args.input;
}

-- The record that a Phase 2 issuer persists.
abbrev pub issued_record :
    {Details : Type 0}
    → InvoiceKind
    → IssueArgs Details
    → Reservation
    → BuiltInvoice
    → InvoiceRecord
issued_record kind args held built = record {
  invoice_id = invoice_id_of args;
  kind = kind;
  serial = held.increment.invoice_number;
  counter_number = held.increment.sequence;
  uuid = args.egs_info.uuid;
  invoice_hash = built.invoice_hash;
  previous_invoice_hash = held.previous_invoice_hash;
  signed_xml = built.signed_xml;
  qr_base64 = built.qr_code;
  issued_at = args.now;
  status = pending;
  clearance_number = none;
  validation_results = none;
}

abbrev pub issued_phase1_record :
    {Details : Type 0}
    → InvoiceKind
    → IssueArgs Details
    → Increment
    → BuiltPhase1Invoice
    → InvoiceRecord
issued_phase1_record kind args i built = record {
  invoice_id = invoice_id_of args;
  kind = kind;
  serial = i.invoice_number;
  counter_number = i.sequence;
  uuid = args.egs_info.uuid;
  invoice_hash = base_pih;
  previous_invoice_hash = base_pih;
  signed_xml = built.invoice_xml;
  qr_base64 = built.qr_code;
  issued_at = args.now;
  status = pending;
  clearance_number = none;
  validation_results = none;
}

module _ {S Details : Type 0} (storage : StorageAdapter S) (builders : Builders Details) where
  unfoldable pub reserve : InvoiceKind → IssueArgs Details → Exec S Reservation
  reserve kind args = do
    increment ← storage.increment_counter args.scope
    previous ← storage.get_previous_hash args.scope (some kind)
    pure (record { increment = increment; previous_invoice_hash = previous })

  unfoldable pub finish :
      InvoiceKind → IssueArgs Details → Signing → Reservation → Exec S IssuedInvoice
  finish kind args signing held = do
    built ← lift (builders.build (full_input kind args held) signing)
    storage.record_invoice args.scope (issued_record kind args held built)
    pure (record {
      invoice_xml = built.invoice_xml;
      signed_xml = built.signed_xml;
      invoice_hash = built.invoice_hash;
      qr_code = built.qr_code;
      sequence = held.increment.sequence;
      invoice_number = held.increment.invoice_number;
    })

  -- The body that the six Phase 2 issuers share, word for word but for the kind.
  unfoldable pub issue_phase2 : InvoiceKind → IssueArgs Details → Signing → Exec S IssuedInvoice
  unfolding reserve finish
  issue_phase2 kind args signing = do
    lift (assert_scope args.egs_info args.scope)
    held ← reserve kind args
    finish kind args signing held

  -- The body that the two Phase 1 issuers share.
  unfoldable pub issue_phase1 : InvoiceKind → IssueArgs Details → Exec S IssuedPhase1Invoice
  issue_phase1 kind args = do
    lift (assert_scope args.egs_info args.scope)
    i ← storage.increment_counter args.scope
    built ← lift (
        builders.build_phase1
          (full_input kind args (record { increment = i; previous_invoice_hash = base_pih })))
    storage.record_invoice args.scope (issued_phase1_record kind args i built)
    pure (record {
      invoice_xml = built.invoice_xml;
      qr_code = built.qr_code;
      sequence = i.sequence;
      invoice_number = i.invoice_number;
    })

  unfoldable pub issue_simplified_tax_invoice : IssueArgs Details → Signing → Exec S IssuedInvoice
  unfolding issue_phase2
  issue_simplified_tax_invoice = issue_phase2 simplified_tax_invoice

  unfoldable pub issue_standard_tax_invoice : IssueArgs Details → Signing → Exec S IssuedInvoice
  unfolding issue_phase2
  issue_standard_tax_invoice = issue_phase2 standard_tax_invoice

  unfoldable pub issue_simplified_credit_note : IssueArgs Details → Signing → Exec S IssuedInvoice
  unfolding issue_phase2
  issue_simplified_credit_note = issue_phase2 simplified_credit_note

  unfoldable pub issue_standard_credit_note : IssueArgs Details → Signing → Exec S IssuedInvoice
  unfolding issue_phase2
  issue_standard_credit_note = issue_phase2 standard_credit_note

  unfoldable pub issue_simplified_debit_note : IssueArgs Details → Signing → Exec S IssuedInvoice
  unfolding issue_phase2
  issue_simplified_debit_note = issue_phase2 simplified_debit_note

  unfoldable pub issue_standard_debit_note : IssueArgs Details → Signing → Exec S IssuedInvoice
  unfolding issue_phase2
  issue_standard_debit_note = issue_phase2 standard_debit_note

  unfoldable pub issue_phase1_invoice : IssueArgs Details → Exec S IssuedPhase1Invoice
  unfolding issue_phase1
  issue_phase1_invoice = issue_phase1 phase1_invoice

  unfoldable pub issue_phase1_credit_note : IssueArgs Details → Exec S IssuedPhase1Invoice
  unfolding issue_phase1
  issue_phase1_credit_note = issue_phase1 phase1_credit_note
