-- ===== src/Storage/Internal.antt =====
-- packages/core/src/compliance/_internal-memory-storage.ts: the adapter of the compliance runner.
-- One counter and one chain head for each scope, whatever the kind and the month.
pub mod Reads
use dokhna_tech_zatca.Prelude.{ℕ, ◌+◌, Option, none, some, ◌∷◌, ◌++◌, or_else}
use dokhna_tech_zatca.Prelude.Text.{Text, text, text_eq, decimal, pad_start}
use dokhna_tech_zatca.Prelude.Dict.{Dict, lookup, insert}
use dokhna_tech_zatca.Prelude.Exec.{ok, err}
use dokhna_tech_zatca.Errors.{storage_error, Exec}
use dokhna_tech_zatca.Storage.{
  InvoiceKind, InvoiceStatus, TenantScope, InvoiceRecord, Increment, StorageAdapter, base_pih,
}

pub record InternalStorage : Type 0 where
  pub counters : Dict Text ℕ
  pub previous_hash : Dict Text Text
  pub records : Dict Text InvoiceRecord

unfoldable pub scope_key : TenantScope → Text
scope_key scope = scope.vat_number ++ b':' ∷ scope.egs_uuid

unfoldable pub record_key : TenantScope → Text → Text
record_key scope id = scope_key scope ++ b':' ∷ id

unfoldable pub increment_counter : TenantScope → Exec InternalStorage Increment
increment_counter scope s =
    let next = or_else (lookup (scope_key scope) s.counters) 0 + 1 in
    (
      ok (record { sequence = next; invoice_number = text "INV-" ++ pad_start 4 (decimal next) }),
      record s { counters = insert (scope_key scope) next s.counters },
    )

unfoldable pub get_previous_hash : TenantScope → Option InvoiceKind → Exec InternalStorage Text
get_previous_hash scope kind s =
    (ok (or_else (lookup (scope_key scope) s.previous_hash) base_pih), s)

unfoldable pub record_invoice : TenantScope → InvoiceRecord → Exec InternalStorage (Unit {0})
record_invoice scope r s = (
  ok tt,
  record s {
    records = insert (record_key scope r.invoice_id) r s.records;
    previous_hash = insert (scope_key scope) r.invoice_hash s.previous_hash;
  },
)

unfoldable pub load_invoice : TenantScope → Text → Exec InternalStorage (Option InvoiceRecord)
load_invoice scope id s = (ok (lookup (record_key scope id) s.records), s)

unfoldable pub update_invoice_status :
    TenantScope → Text → InvoiceStatus → Exec InternalStorage (Unit {0})
update_invoice_status scope id status s = elim (lookup (record_key scope id) s.records) [
  | none ↦ (
    err (
        storage_error (text "updateInvoiceStatus called for unknown invoice " ++ (id ++ text "."))),
    s,
  )
  | some existing ↦ (
    ok tt,
    record s {
      records = insert (record_key scope id) (record existing { status = status }) s.records;
    },
  )
]

-- `createInternalMemoryStorage()`
unfoldable pub create_internal_memory_storage : StorageAdapter InternalStorage
create_internal_memory_storage = record {
  increment_counter = increment_counter;
  get_previous_hash = get_previous_hash;
  record_invoice = record_invoice;
  load_invoice = load_invoice;
  update_invoice_status = update_invoice_status;
}
