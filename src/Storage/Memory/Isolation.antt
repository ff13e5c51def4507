-- ===== src/Storage/Memory/Isolation.antt =====
-- Tenants do not see one another: a call for one scope changes nothing that another scope reads.
use dokhna_tech_zatca.Prelude.{◌≡◌, ◌≢◌, refl, ap, Option, arith, Option-cases, inl, inr}
use dokhna_tech_zatca.Prelude.Text.{Text, text_eq}
use dokhna_tech_zatca.Prelude.Dict.{lookup, insert, lookup-insert_ne}
use dokhna_tech_zatca.Storage.{InvoiceKind, InvoiceStatus, TenantScope, InvoiceRecord}
use dokhna_tech_zatca.Storage.Memory.{
  InvoiceNumberFormatter, MemoryStorage, ScopeCell, scope_key, counter_key, year_month_for,
  increment_counter, get_previous_hash, record_invoice, load_invoice, update_invoice_status,
}
use dokhna_tech_zatca.Storage.Memory.Keys.{IsPlain, scope_key_injective, counter_key_injective}

-- All that the calls for one scope can return.
pub record SameView (scope : TenantScope) (s t : MemoryStorage) : Type 0 where
  pub previous :
      (kind : Option InvoiceKind)
      → (get_previous_hash scope kind t).0 ≡ (get_previous_hash scope kind s).0
  pub loaded : (id : Text) → (load_invoice scope id t).0 ≡ (load_invoice scope id s).0
  pub counted :
      (format : InvoiceNumberFormatter)
      → (increment_counter format scope t).0 ≡ (increment_counter format scope s).0

-- A call that writes, made for `scope`.
pub data CallOn (format : InvoiceNumberFormatter) (scope : TenantScope) (s : MemoryStorage)
    : MemoryStorage → Type 0 where
  increment : CallOn format scope s (increment_counter format scope s).1
  recorded : (r : InvoiceRecord) → CallOn format scope s (record_invoice scope r s).1
  updated :
      (id : Text) (status : InvoiceStatus)
      → CallOn format scope s (update_invoice_status scope id status s).1

-- The view of a scope rests on its own cell, its own counters and the clock.
SameView-intro :
    (scope : TenantScope) (s t : MemoryStorage)
    → lookup (scope_key scope) t.scopes ≡ lookup (scope_key scope) s.scopes
    → ((month : Text)
        → lookup (counter_key scope month) t.counters ≡ lookup (counter_key scope month) s.counters)
    → t.now ≡ s.now
    → SameView scope s t
unfolding get_previous_hash load_invoice increment_counter
SameView-intro scope s t cell counter now =
    let month = (year_month_for s.now).year_month in
    record {
      previous = λ kind. ground arith;
      loaded = λ id. ground arith;
      counted = λ format. ground (arith, counter month, ap year_month_for now);
    }

module _ (a b : TenantScope) (plain_a : IsPlain a) (plain_b : IsPlain b) (differ : a ≢ b)
    (s : MemoryStorage) where
  cell_of_other :
      (cell : ScopeCell)
      → lookup (scope_key b) (insert (scope_key a) cell s.scopes) ≡ lookup (scope_key b) s.scopes
  cell_of_other cell =
      lookup-insert_ne (scope_key a) (scope_key b) cell s.scopes
        (λ e. differ (scope_key_injective a b plain_a plain_b e))

  increment-SameView :
      (format : InvoiceNumberFormatter) → SameView b s (increment_counter format a s).1
  unfolding increment_counter
  increment-SameView format =
      let month = (year_month_for s.now).year_month in
      SameView-intro b s (increment_counter format a s).1 refl
        (λ m.
          lookup-insert_ne (counter_key a month) (counter_key b m) _ s.counters
            (λ e. differ (counter_key_injective a b month m plain_a plain_b e).0))
        refl

  record-SameView : (r : InvoiceRecord) → SameView b s (record_invoice a r s).1
  unfolding record_invoice
  record-SameView r = SameView-intro b s (record_invoice a r s).1 (cell_of_other _) (λ m. refl) refl

  SameView-self : SameView b s s
  SameView-self = record { previous = λ kind. refl; loaded = λ id. refl; counted = λ format. refl }

  update-SameView :
      (id : Text) (status : InvoiceStatus) → SameView b s (update_invoice_status a id status s).1
  unfolding update_invoice_status
  update-SameView id status = elim (Option-cases (lookup (scope_key a) s.scopes)) [
    | inl missing ↦ rw (missing, update_invoice_status) SameView-self
    | inr (cell, there) ↦
        rw (there, update_invoice_status) (SameView-intro b s _ (cell_of_other _) (λ m. refl) refl)
  ]

-- For two scopes whose VAT numbers and UUIDs hold no colon: no call for the one changes what
-- `getPreviousHash`, `loadInvoice` and the next `incrementCounter` return for the other.
pub CallOn-SameView :
    (a b : TenantScope) {format : InvoiceNumberFormatter} {s t : MemoryStorage}
    → IsPlain a
    → IsPlain b
    → a ≢ b
    → CallOn format a s t
    → SameView b s t
CallOn-SameView a b {format} {s} pa pb differ increment =
    increment-SameView a b pa pb differ s format
CallOn-SameView a b {s} pa pb differ (recorded r) = record-SameView a b pa pb differ s r
CallOn-SameView a b {s} pa pb differ (updated id status) =
    update-SameView a b pa pb differ s id status
