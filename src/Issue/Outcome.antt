-- ===== src/Issue/Outcome.antt =====
-- What a Phase 2 issuer leaves behind over the in-memory adapter, when it succeeds.
use dokhna_tech_zatca.Prelude.{◌≡◌, refl, ◌∙◌, none, some, arith, if◌then◌else◌}
use dokhna_tech_zatca.Prelude.Eq.{◌==◌}
use dokhna_tech_zatca.Prelude.Text.{text_eq}
use dokhna_tech_zatca.Prelude.Dict.{beq_refl}
use dokhna_tech_zatca.Prelude.Exec.{ok}
use dokhna_tech_zatca.Storage.{InvoiceKind, kind_eq, InvoiceRecord, TenantScope}
use dokhna_tech_zatca.Storage.Memory.{
  MemoryStorage, InvoiceNumberFormatter, increment_counter, get_previous_hash, record_invoice,
  load_invoice, create_memory_storage_adapter,
}
use dokhna_tech_zatca.Storage.Memory.Reads.{
  record_invoice_fresh, load_invoice-record, get_previous_hash-record, load_invoice-increment,
  get_previous_hash-increment, get_previous_hash_state,
}
use dokhna_tech_zatca.Issue.{
  Signing, Builders, BuiltInvoice, IssueArgs, IssuedInvoice, Reservation, assert_scope, reserve,
  finish, issue_phase2, invoice_id_of, full_input, issued_record,
}

abbrev pub issued_invoice : Reservation → BuiltInvoice → IssuedInvoice
issued_invoice held built = record {
  invoice_xml = built.invoice_xml;
  signed_xml = built.signed_xml;
  invoice_hash = built.invoice_hash;
  qr_code = built.qr_code;
  sequence = held.increment.sequence;
  invoice_number = held.increment.invoice_number;
}

-- What the storage answers to the handshake in the state `s`.
pub record Answers (format : InvoiceNumberFormatter) (scope : TenantScope) (kind : InvoiceKind)
    (s : MemoryStorage) (held : Reservation) : Type 0 where
  pub counted : (increment_counter format scope s).0 ≡ ok held.increment
  pub previous : (get_previous_hash scope (some kind) s).0 ≡ ok held.previous_invoice_hash

pub reserve-Answers :
    {Details : Type 0} (format : InvoiceNumberFormatter) (builders : Builders Details)
    (kind : InvoiceKind) (args : IssueArgs Details) (s : MemoryStorage) (held : Reservation)
    → Answers format args.scope kind s held
    → reserve (create_memory_storage_adapter format) builders kind args s
      ≡ (ok held, (increment_counter format args.scope s).1)
unfolding reserve create_memory_storage_adapter
reserve-Answers format builders kind args s held h = ground (
  arith,
  h.counted,
  h.previous,
  get_previous_hash-increment format args.scope args.scope kind s,
  get_previous_hash_state args.scope (some kind) (increment_counter format args.scope s).1,
)

module _ {Details : Type 0} (format : InvoiceNumberFormatter) (builders : Builders Details)
    (kind : InvoiceKind) (args : IssueArgs Details) (signing : Signing) (s : MemoryStorage)
    (held : Reservation) (matched : assert_scope args.egs_info args.scope ≡ ok tt)
    (answers : Answers format args.scope kind s held) where
  -- the state after the handshake
  abbrev pub counted : MemoryStorage
  counted = (increment_counter format args.scope s).1

  pub issue_phase2-finish :
      issue_phase2 (create_memory_storage_adapter format) builders kind args signing s
      ≡ finish (create_memory_storage_adapter format) builders kind args signing held counted
  unfolding issue_phase2
  issue_phase2-finish = rw (matched, reserve-Answers format builders kind args s held answers)

  module _ (built : BuiltInvoice)
      (returned : builders.build (full_input kind args held) signing ≡ ok built)
      (fresh : (load_invoice args.scope (invoice_id_of args) s).0 ≡ ok none) where
    abbrev made : InvoiceRecord
    made = issued_record kind args held built

    fresh_counted : (load_invoice args.scope (invoice_id_of args) counted).0 ≡ ok none
    fresh_counted =
        load_invoice-increment format args.scope args.scope (invoice_id_of args) s ∙ fresh

    issue_phase2-record :
        issue_phase2 (create_memory_storage_adapter format) builders kind args signing s
        ≡ (ok (issued_invoice held built), (record_invoice args.scope made counted).1)
    unfolding finish create_memory_storage_adapter
    issue_phase2-record =
        issue_phase2-finish
        ∙ rw (finish, returned, record_invoice_fresh args.scope made counted fresh_counted)

    -- With matching scope, a builder that returns and an id that is not taken: the issuer returns
    -- the built document with the sequence and number that the counter gave; `loadInvoice` finds
    -- the pending record, whose previous hash is the one that the storage answered; the built hash
    -- is the previous hash of the kind from now on, and every other kind keeps its own.
    pub issue_phase2_outcome :
        (j : InvoiceKind)
        → let (result, t) =
            issue_phase2 (create_memory_storage_adapter format) builders kind args signing s in
          (result ≡ ok (issued_invoice held built))
          × ((load_invoice args.scope (invoice_id_of args) t).0
              ≡ ok (some (issued_record kind args held built)))
          × ((get_previous_hash args.scope (some j) t).0 ≡ (
              if kind == j
              then ok built.invoice_hash
              else (get_previous_hash args.scope (some j) s).0))
    issue_phase2_outcome j = rw issue_phase2-record (
      refl,
      load_invoice-record args.scope made counted (invoice_id_of args) fresh_counted
          ∙ ground (arith, beq_refl (invoice_id_of args)),
      get_previous_hash-record args.scope made counted j fresh_counted
          ∙ rw (get_previous_hash-increment format args.scope args.scope j s),
    )
