-- ===== src/Storage/Internal/Reads.antt =====
-- What the compliance runner's storage reads back.
use dokhna_tech_zatca.Prelude.{◌≡◌, some, arith, Option}
use dokhna_tech_zatca.Prelude.Text.{text_eq}
use dokhna_tech_zatca.Prelude.Dict.{lookup-insert_self}
use dokhna_tech_zatca.Prelude.Exec.{ok}
use dokhna_tech_zatca.Storage.{InvoiceKind, InvoiceStatus, TenantScope, InvoiceRecord}
use dokhna_tech_zatca.Storage.Internal.{
  InternalStorage, scope_key, record_key, get_previous_hash, record_invoice, load_invoice,
  update_invoice_status,
}

-- After `recordInvoice`, whatever was there before: `loadInvoice` returns the record, its hash is
-- the previous hash for every kind, and a status that is set under its id is read back in it, with
-- the rest of the record unchanged.
pub record_invoice-reads :
    (scope : TenantScope) (r : InvoiceRecord) (status : InvoiceStatus) (s : InternalStorage)
    → let t = (record_invoice scope r s).1 in
      (load_invoice scope r.invoice_id t ≡ (ok (some r), t))
      × ((kind : Option InvoiceKind) → get_previous_hash scope kind t ≡ (ok r.invoice_hash, t))
      × ((load_invoice scope r.invoice_id (update_invoice_status scope r.invoice_id status t).1).0
          ≡ ok (some (record r { status = status })))
unfolding record_invoice load_invoice get_previous_hash update_invoice_status
record_invoice-reads scope r status s =
    let key = record_key scope r.invoice_id in
    let t = (record_invoice scope r s).1 in
    (
      ground (arith, lookup-insert_self key r s.records),
      λ kind. ground (arith, lookup-insert_self (scope_key scope) r.invoice_hash s.previous_hash),
      ground (
        arith,
        lookup-insert_self key r s.records,
        lookup-insert_self key (record r { status = status }) t.records,
      ),
    )
