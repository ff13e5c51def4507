-- ===== src/Storage/Memory/Steps.antt =====
-- The states of the adapter: any calls in any order, and the clock, which the environment sets.
use dokhna_tech_zatca.Prelude.{◌≡◌, refl, some, arith, or_else, Bool-cases, Option-cases, inl, inr}
use dokhna_tech_zatca.Prelude.Eq.{◌==◌, option_eq}
use dokhna_tech_zatca.Prelude.Text.{Text, text_eq}
use dokhna_tech_zatca.Prelude.Dict.{lookup, lookup-insert}
use dokhna_tech_zatca.Prelude.Exec.{ok}
use dokhna_tech_zatca.Storage.{InvoiceKind, InvoiceStatus, TenantScope, InvoiceRecord, Increment}
use dokhna_tech_zatca.Storage.Memory.{
  Date, InvoiceNumberFormatter, MemoryStorage, ScopeCell, new_cell, scope_key, get_or_create_scope,
  record_in_cell, update_in_cell, put_cell, increment_counter, get_previous_hash, record_invoice,
  update_invoice_status,
}
use dokhna_tech_zatca.Storage.Memory.Chain.{
  IsChained, head_of, record_in_cell-IsChained, update_in_cell-IsChained,
}

-- One call, or a change of the clock. The reads (`getPreviousHash`, `loadInvoice`) change nothing.
pub data Step (format : InvoiceNumberFormatter) (s : MemoryStorage) : MemoryStorage → Type 0 where
  tick : (now : Date) → Step format s (record s { now = now })
  increment : (scope : TenantScope) → Step format s (increment_counter format scope s).1
  recorded : (scope : TenantScope) (r : InvoiceRecord) → Step format s (record_invoice scope r s).1
  updated :
      (scope : TenantScope) (id : Text) (status : InvoiceStatus)
      → Step format s (update_invoice_status scope id status s).1

pub data Reach (format : InvoiceNumberFormatter) (s : MemoryStorage) : MemoryStorage → Type 0 where
  here : Reach format s s
  next : {t u : MemoryStorage} → Reach format s t → Step format t u → Reach format s u

abbrev pub cell_at : Text → MemoryStorage → ScopeCell
cell_at key s = or_else (lookup key s.scopes) new_cell

-- Every scope's cell is chained.
pub record AllChained (s : MemoryStorage) : Type 0 where
  pub at_key : (key : Text) → IsChained (cell_at key s)

put_cell-AllChained :
    (scope : TenantScope) (cell : ScopeCell) (s : MemoryStorage)
    → AllChained s
    → IsChained cell
    → AllChained (put_cell scope cell s)
put_cell-AllChained scope cell s h c = record {
  at_key = λ key. elim (Bool-cases (scope_key scope == key)) [
    | inl same ↦ rw (lookup-insert, same) c
    | inr other ↦ rw (lookup-insert, other) (h.at_key key)
  ];
}

-- `getPreviousHash` reads the head of the kind's chain.
pub get_previous_hash-head_of :
    (scope : TenantScope) (k : InvoiceKind) (s : MemoryStorage)
    → get_previous_hash scope (some k) s ≡ (ok (head_of (some k) (get_or_create_scope scope s)), s)
unfolding get_previous_hash lookup
get_previous_hash-head_of scope k s = ground arith

pub record_invoice-AllChained :
    (scope : TenantScope) (r : InvoiceRecord) (s : MemoryStorage)
    → AllChained s
    → r.previous_invoice_hash ≡ head_of (some r.kind) (get_or_create_scope scope s)
    → AllChained (record_invoice scope r s).1
unfolding record_invoice
record_invoice-AllChained scope r s h e =
    let cell = get_or_create_scope scope s in
    put_cell-AllChained scope (record_in_cell r cell).1 s h
      (record_in_cell-IsChained r cell (h.at_key (scope_key scope)) e)

pub update_invoice_status-AllChained :
    (scope : TenantScope) (id : Text) (status : InvoiceStatus) (s : MemoryStorage)
    → AllChained s
    → AllChained (update_invoice_status scope id status s).1
unfolding update_invoice_status
update_invoice_status-AllChained scope id status s h =
    elim (Option-cases (lookup (scope_key scope) s.scopes)) [
      | inl missing ↦ rw (missing, update_invoice_status) h
      | inr (cell, there) ↦
          let c : IsChained cell = rw there at (h.at_key (scope_key scope)) in
          rw (there, update_invoice_status)
            (put_cell-AllChained scope (update_in_cell id status cell).1 s h
              (update_in_cell-IsChained id status cell c))
    ]

pub increment_counter-AllChained :
    (format : InvoiceNumberFormatter) (scope : TenantScope) (s : MemoryStorage)
    → AllChained s
    → AllChained (increment_counter format scope s).1
unfolding increment_counter
increment_counter-AllChained format scope s h = record { at_key = h.at_key }

pub tick-AllChained :
    (now : Date) (s : MemoryStorage) → AllChained s → AllChained (record s { now = now })
tick-AllChained now s h = record { at_key = h.at_key }

pub increment_counter_ok :
    (format : InvoiceNumberFormatter) (scope : TenantScope) (s : MemoryStorage)
    → (i : Increment) × ((increment_counter format scope s).0 ≡ ok i)
unfolding increment_counter
increment_counter_ok format scope s = (_, refl)
