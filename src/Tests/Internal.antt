-- ===== src/Tests/Internal.antt =====
-- A concrete run of the compliance runner's storage.
use dokhna_tech_zatca.Prelude.{◌≡◌, some, [], Option}
use dokhna_tech_zatca.Prelude.Exec.{ok}
use dokhna_tech_zatca.Storage.{InvoiceKind, accepted}
use dokhna_tech_zatca.Storage.Internal.{
  InternalStorage, get_previous_hash, record_invoice, load_invoice, update_invoice_status,
}
use dokhna_tech_zatca.Storage.Internal.Reads.{record_invoice-reads}
use dokhna_tech_zatca.Tests.Data.{shop, first}

abbrev nothing : InternalStorage
nothing = record { counters = []; previous_hash = []; records = [] }

record_invoice-reads_example :
    let t = (record_invoice shop first nothing).1 in
    (load_invoice shop first.invoice_id t ≡ (ok (some first), t))
    × ((kind : Option InvoiceKind) → get_previous_hash shop kind t ≡ (ok first.invoice_hash, t))
    × ((load_invoice shop first.invoice_id
          (update_invoice_status shop first.invoice_id accepted t).1).0
        ≡ ok (some (record first { status = accepted })))
record_invoice-reads_example = record_invoice-reads shop first accepted nothing
