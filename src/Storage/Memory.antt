-- ===== src/Storage/Memory.antt =====
-- packages/storage-memory/src/adapter.ts: the in-process storage adapter.
-- The state holds the two Maps of the closure, and what `options.now()` returns at this point: the
-- environment changes `now` between calls. The callbacks under a mutex contain no `await`, so each
-- call is one step; the mutexes and the debug log leave no trace in the state.
pub mod Keys
pub mod Cells
pub mod Counters
pub mod Chain
pub mod Steps
pub mod Reads
pub mod Isolation
pub mod Numbers
use mathlib.Core.Option
use dokhna_tech_zatca.Prelude.{
  ℕ, ◌+◌, Bool, ◌&&◌, Option, none, some, [], ◌∷◌, ◌++◌, or_else, if◌then◌else◌,
}
use dokhna_tech_zatca.Prelude.Eq.{◌==◌, nat_eq, option_eq}
use dokhna_tech_zatca.Prelude.Text.{Text, text, text_eq, decimal, pad_start}
use dokhna_tech_zatca.Prelude.Dict.{Dict, lookup, insert}
use dokhna_tech_zatca.Prelude.Exec.{ok, err}
use dokhna_tech_zatca.Json.{Json}
use dokhna_tech_zatca.Json.Stringify.{stringify}
use dokhna_tech_zatca.Errors.{storage_error, Result, Exec}
use dokhna_tech_zatca.Storage.{
  InvoiceKind, kind_eq, InvoiceStatus, status_eq, TenantScope, InvoiceRecord, Increment,
  StorageAdapter, base_pih,
}

-- A Date as the readings that the adapter takes of it; `utc_month` counts from 0.
pub record Date : Type 0 where
  pub utc_full_year : ℕ
  pub utc_month : ℕ

pub record YearMonth : Type 0 where
  pub year_month : Text
  pub year : ℕ
  pub month : ℕ

pub record FormatInput : Type 0 where
  pub scope : TenantScope
  pub sequence : ℕ
  pub year_month : Text
  pub year : ℕ
  pub month : ℕ

abbrev pub InvoiceNumberFormatter : Type 0
InvoiceNumberFormatter = FormatInput → Text

unfoldable pub default_formatter : InvoiceNumberFormatter
default_formatter i =
    decimal i.year ++ (pad_start 2 (decimal i.month) ++ pad_start 6 (decimal i.sequence))

-- `none` is the key "__any__".
abbrev pub ChainKey : Type 0
ChainKey = Option InvoiceKind

pub record ScopeCell : Type 0 where
  pub records : Dict Text InvoiceRecord
  pub chain_head : Dict ChainKey Text

pub record MemoryStorage : Type 0 where
  pub counters : Dict Text ℕ
  pub scopes : Dict Text ScopeCell
  pub now : Date

unfoldable pub scope_key : TenantScope → Text
scope_key scope = scope.vat_number ++ b':' ∷ scope.egs_uuid

unfoldable pub counter_key : TenantScope → Text → Text
counter_key scope year_month = scope_key scope ++ b':' ∷ year_month

unfoldable pub year_month_for : Date → YearMonth
year_month_for date = record {
  year_month = decimal date.utc_full_year ++ pad_start 2 (decimal (date.utc_month + 1));
  year = date.utc_full_year;
  month = date.utc_month + 1;
}

-- The `sequence` of the cell; a new cell has 0.
abbrev pub get_or_create_counter : TenantScope → Text → MemoryStorage → ℕ
get_or_create_counter scope year_month s =
    or_else (lookup (counter_key scope year_month) s.counters) 0

abbrev pub new_cell : ScopeCell
new_cell = record { records = []; chain_head = [] }

abbrev pub get_or_create_scope : TenantScope → MemoryStorage → ScopeCell
get_or_create_scope scope s = or_else (lookup (scope_key scope) s.scopes) new_cell

-- A write through a cell that the Map holds.
abbrev pub put_cell : TenantScope → ScopeCell → MemoryStorage → MemoryStorage
put_cell scope cell s = record s { scopes = insert (scope_key scope) cell s.scopes }

-- `JSON.stringify` of a value that may be `undefined`, whose text is `undefined`.
abbrev pub json_text : Option Json → Option Text
json_text none = none
json_text (some v) = some (stringify v)

unfoldable pub records_equal : InvoiceRecord → InvoiceRecord → Bool
records_equal a b =
    a.invoice_id == b.invoice_id
    && (a.kind == b.kind
        && (a.serial == b.serial
            && (a.counter_number == b.counter_number
                && (a.uuid == b.uuid
                    && (a.invoice_hash == b.invoice_hash
                        && (a.previous_invoice_hash == b.previous_invoice_hash
                            && (a.signed_xml == b.signed_xml
                                && (a.qr_base64 == b.qr_base64
                                    && (a.status == b.status
                                        && (a.issued_at == b.issued_at
                                            && (a.clearance_number == b.clearance_number
                                                && json_text a.validation_results
                                                  == json_text b.validation_results)))))))))))

unfoldable pub unknown_invoice : Text → Text
unknown_invoice id = text "updateInvoiceStatus called for unknown invoice " ++ (id ++ text ".")

unfoldable pub conflicting_payloads : Text → Text
conflicting_payloads id =
    text "recordInvoice(" ++ (id ++ text ") called twice with conflicting payloads.")

-- The callback of `recordInvoice` under the scope's mutex.
unfoldable pub record_in_cell : InvoiceRecord → ScopeCell → Result (Unit {0}) × ScopeCell
record_in_cell r cell = elim (lookup r.invoice_id cell.records) [
  | some existing ↦
      if records_equal existing r
      then (ok tt, cell)
      else (err (storage_error (conflicting_payloads r.invoice_id)), cell)
  | none ↦ (
    ok tt,
    record {
      records = insert r.invoice_id r cell.records;
      chain_head = insert (some r.kind) r.invoice_hash (insert none r.invoice_hash cell.chain_head);
    },
  )
]

-- The callback of `updateInvoiceStatus` under the scope's mutex.
unfoldable pub update_in_cell : Text → InvoiceStatus → ScopeCell → Result (Unit {0}) × ScopeCell
update_in_cell id status cell = elim (lookup id cell.records) [
  | none ↦ (err (storage_error (unknown_invoice id)), cell)
  | some existing ↦ (
    ok tt,
    record cell { records = insert id (record existing { status = status }) cell.records },
  )
]

module _ (format_invoice_number : InvoiceNumberFormatter) where
  unfoldable pub increment_counter : TenantScope → Exec MemoryStorage Increment
  increment_counter scope s =
      let ym = year_month_for s.now in
      let sequence = get_or_create_counter scope ym.year_month s + 1 in
      let number = format_invoice_number (record {
        scope = scope;
        sequence = sequence;
        year_month = ym.year_month;
        year = ym.year;
        month = ym.month;
      }) in
      (
        ok (record { sequence = sequence; invoice_number = number }),
        record s { counters = insert (counter_key scope ym.year_month) sequence s.counters },
      )

unfoldable pub get_previous_hash : TenantScope → Option InvoiceKind → Exec MemoryStorage Text
get_previous_hash scope kind s = elim (lookup (scope_key scope) s.scopes) [
  | none ↦ (ok base_pih, s)
  | some cell ↦ (ok (or_else (lookup kind cell.chain_head) base_pih), s)
]

unfoldable pub record_invoice : TenantScope → InvoiceRecord → Exec MemoryStorage (Unit {0})
record_invoice scope r s =
    let (result, cell) = record_in_cell r (get_or_create_scope scope s) in
    (result, put_cell scope cell s)

unfoldable pub load_invoice : TenantScope → Text → Exec MemoryStorage (Option InvoiceRecord)
load_invoice scope id s = elim (lookup (scope_key scope) s.scopes) [
  | none ↦ (ok none, s)
  | some cell ↦ (ok (lookup id cell.records), s)
]

unfoldable pub update_invoice_status :
    TenantScope → Text → InvoiceStatus → Exec MemoryStorage (Unit {0})
update_invoice_status scope id status s = elim (lookup (scope_key scope) s.scopes) [
  | none ↦ (err (storage_error (unknown_invoice id)), s)
  | some cell ↦
      let (result, cell') = update_in_cell id status cell in (result, put_cell scope cell' s)
]

-- `createMemoryStorageAdapter({ formatInvoiceNumber })`; the clock is in the state.
unfoldable pub create_memory_storage_adapter : InvoiceNumberFormatter → StorageAdapter MemoryStorage
create_memory_storage_adapter format = record {
  increment_counter = increment_counter format;
  get_previous_hash = get_previous_hash;
  record_invoice = record_invoice;
  load_invoice = load_invoice;
  update_invoice_status = update_invoice_status;
}
