-- ===== src/Storage/Memory/Reads.antt =====
-- What the adapter's reads return after a record is added.
use dokhna_tech_zatca.Prelude.{◌≡◌, Option, none, some, arith, if◌then◌else◌}
use dokhna_tech_zatca.Prelude.Eq.{◌==◌}
use dokhna_tech_zatca.Prelude.Text.{Text, text_eq}
use dokhna_tech_zatca.Prelude.Dict.{lookup, lookup-insert_self, lookup-insert}
use dokhna_tech_zatca.Prelude.Exec.{ok}
use dokhna_tech_zatca.Storage.{InvoiceKind, kind_eq, TenantScope, InvoiceRecord}
use dokhna_tech_zatca.Storage.Memory.{
  MemoryStorage, get_or_create_scope, put_cell, record_in_cell, get_previous_hash, record_invoice,
  load_invoice, increment_counter, InvoiceNumberFormatter,
}
use dokhna_tech_zatca.Storage.Memory.Chain.{added, head_of-added}
use dokhna_tech_zatca.Storage.Memory.Steps.{get_previous_hash-head_of}

pub load_invoice-cell :
    (scope : TenantScope) (id : Text) (s : MemoryStorage)
    → load_invoice scope id s ≡ (ok (lookup id (get_or_create_scope scope s).records), s)
unfolding load_invoice lookup
load_invoice-cell scope id s = ground arith

-- An id that `loadInvoice` does not know is not in the scope's cell.
fresh_of_load :
    (scope : TenantScope) (id : Text) (s : MemoryStorage)
    → (load_invoice scope id s).0 ≡ ok none
    → lookup id (get_or_create_scope scope s).records ≡ none
fresh_of_load scope id s h = ground (arith, load_invoice-cell scope id s)

pub record_invoice_fresh :
    (scope : TenantScope) (r : InvoiceRecord) (s : MemoryStorage)
    → (load_invoice scope r.invoice_id s).0 ≡ ok none
    → record_invoice scope r s ≡ (ok tt, put_cell scope (added r (get_or_create_scope scope s)) s)
unfolding record_invoice record_in_cell
record_invoice_fresh scope r s h = rw (fresh_of_load scope r.invoice_id s h, record_in_cell)

module _ (scope : TenantScope) (r : InvoiceRecord) (s : MemoryStorage) where
  pub cell-put_cell :
      get_or_create_scope scope (put_cell scope (added r (get_or_create_scope scope s)) s)
      ≡ added r (get_or_create_scope scope s)
  cell-put_cell = rw lookup-insert_self

  -- A record under a new id is read back by `loadInvoice`, and other ids as before.
  pub load_invoice-record :
      (id : Text)
      → (load_invoice scope r.invoice_id s).0 ≡ ok none
      → (load_invoice scope id (record_invoice scope r s).1).0
        ≡ (if r.invoice_id == id then ok (some r) else (load_invoice scope id s).0)
  load_invoice-record id h =
      rw
        (
          record_invoice_fresh scope r s h,
          load_invoice-cell scope id (put_cell scope (added r (get_or_create_scope scope s)) s),
          cell-put_cell,
          load_invoice-cell scope id s,
          lookup-insert,
        )
        (ground arith)

  -- Its hash becomes the previous hash of its kind, and other kinds keep theirs.
  pub get_previous_hash-record :
      (k : InvoiceKind)
      → (load_invoice scope r.invoice_id s).0 ≡ ok none
      → (get_previous_hash scope (some k) (record_invoice scope r s).1).0
        ≡ (if r.kind == k then ok r.invoice_hash else (get_previous_hash scope (some k) s).0)
  get_previous_hash-record k h =
      rw
        (
          record_invoice_fresh scope r s h,
          get_previous_hash-head_of scope k
              (put_cell scope (added r (get_or_create_scope scope s)) s),
          cell-put_cell,
          get_previous_hash-head_of scope k s,
          head_of-added,
        )
        (ground arith)

-- An increment changes nothing that the other reads return.
pub load_invoice-increment :
    (format : InvoiceNumberFormatter) (a scope : TenantScope) (id : Text) (s : MemoryStorage)
    → (load_invoice scope id (increment_counter format a s).1).0 ≡ (load_invoice scope id s).0
unfolding load_invoice increment_counter
load_invoice-increment format a scope id s = ground arith

pub get_previous_hash-increment :
    (format : InvoiceNumberFormatter) (a scope : TenantScope) (k : InvoiceKind) (s : MemoryStorage)
    → (get_previous_hash scope (some k) (increment_counter format a s).1).0
      ≡ (get_previous_hash scope (some k) s).0
unfolding get_previous_hash increment_counter
get_previous_hash-increment format a scope k s = ground arith

pub get_previous_hash_state :
    (scope : TenantScope) (kind : Option InvoiceKind) (s : MemoryStorage)
    → (get_previous_hash scope kind s).1 ≡ s
unfolding get_previous_hash
get_previous_hash_state scope kind s = ground arith
