-- ===== src/Storage/Memory/Cells.antt =====
-- The callbacks of `recordInvoice` and `updateInvoiceStatus` on one scope's cell.
use dokhna_tech_zatca.Prelude.{
  ◌≡◌, ◌≢◌, refl, ap, or_else, [], true, Option, none, some, arith, and-eq-true, Bool-cases,
  Option-cases, inl, inr,
}
use dokhna_tech_zatca.Prelude.Eq.{nat_eq, option_eq, ◌==◌}
use dokhna_tech_zatca.Prelude.Text.{Text, text_eq}
use dokhna_tech_zatca.Prelude.Dict.{lookup, lookup-insert_self, beq_refl, insert_twice, insert_same}
use dokhna_tech_zatca.Prelude.Exec.{ok, err}
use dokhna_tech_zatca.Json.{Json}
use dokhna_tech_zatca.Json.Stringify.Injective.{stringify-injective}
use dokhna_tech_zatca.Errors.{ZatcaError, storage_error}
use dokhna_tech_zatca.Storage.{InvoiceRecord, kind_eq, status_eq}
use dokhna_tech_zatca.Storage.Memory.{
  MemoryStorage, ScopeCell, records_equal, record_in_cell, conflicting_payloads, record_invoice,
  json_text, get_or_create_scope, scope_key, put_cell, load_invoice,
}
use dokhna_tech_zatca.Storage.{TenantScope}

json_text-injective : (a b : Option Json) → json_text a ≡ json_text b → a ≡ b
json_text-injective none none h = refl
json_text-injective none (some w) h = absurd cc
json_text-injective (some v) none h = absurd cc
json_text-injective (some v) (some w) h =
    ap some (stringify-injective v w (ap (λ o. or_else o []) h))

records_equal_refl : (a : InvoiceRecord) → records_equal a a ≡ true
unfolding records_equal
records_equal_refl a = simp (
  beq_refl {K = Text},
  beq_refl ⦃e = kind_eq⦄,
  beq_refl ⦃e = nat_eq⦄,
  beq_refl ⦃e = option_eq ⦃e = text_eq⦄⦄,
)

records_equal_sound : (a b : InvoiceRecord) → records_equal a b ≡ true → a ≡ b
unfolding records_equal
records_equal_sound a b h0 =
    let (e0, h1) = and-eq-true (a.invoice_id == b.invoice_id) _ h0 in
    let (e1, h2) = and-eq-true (a.kind == b.kind) _ h1 in
    let (e2, h3) = and-eq-true (a.serial == b.serial) _ h2 in
    let (e3, h4) = and-eq-true (a.counter_number == b.counter_number) _ h3 in
    let (e4, h5) = and-eq-true (a.uuid == b.uuid) _ h4 in
    let (e5, h6) = and-eq-true (a.invoice_hash == b.invoice_hash) _ h5 in
    let (e6, h7) = and-eq-true (a.previous_invoice_hash == b.previous_invoice_hash) _ h6 in
    let (e7, h8) = and-eq-true (a.signed_xml == b.signed_xml) _ h7 in
    let (e8, h9) = and-eq-true (a.qr_base64 == b.qr_base64) _ h8 in
    let (e9, h10) = and-eq-true (a.status == b.status) _ h9 in
    let (e10, h11) = and-eq-true (a.issued_at == b.issued_at) _ h10 in
    let (e11, e12) = and-eq-true (a.clearance_number == b.clearance_number) _ h11 in
    λ i. record {
      invoice_id = (text_eq.beq_iff _ _).0 e0 i;
      kind = (kind_eq.beq_iff _ _).0 e1 i;
      serial = (text_eq.beq_iff _ _).0 e2 i;
      counter_number = (nat_eq.beq_iff _ _).0 e3 i;
      uuid = (text_eq.beq_iff _ _).0 e4 i;
      invoice_hash = (text_eq.beq_iff _ _).0 e5 i;
      previous_invoice_hash = (text_eq.beq_iff _ _).0 e6 i;
      signed_xml = (text_eq.beq_iff _ _).0 e7 i;
      qr_base64 = (text_eq.beq_iff _ _).0 e8 i;
      status = (status_eq.beq_iff _ _).0 e9 i;
      issued_at = (nat_eq.beq_iff _ _).0 e10 i;
      clearance_number = ((option_eq ⦃e = text_eq⦄).beq_iff _ _).0 e11 i;
      validation_results =
          json_text-injective _ _ (((option_eq ⦃e = text_eq⦄).beq_iff _ _).0 e12) i;
    }

record_in_cell_retry :
    (r : InvoiceRecord) (cell : ScopeCell)
    → (record_in_cell r cell).0 ≡ ok tt
    → record_in_cell r (record_in_cell r cell).1 ≡ (ok tt, (record_in_cell r cell).1)
unfolding record_in_cell
record_in_cell_retry r cell h =
    ground (arith, lookup-insert_self r.invoice_id r cell.records, records_equal_refl r)

record_in_cell_conflict :
    (r existing : InvoiceRecord) (cell : ScopeCell)
    → lookup r.invoice_id cell.records ≡ some existing
    → existing ≢ r
    → record_in_cell r cell ≡ (err (storage_error (conflicting_payloads r.invoice_id)), cell)
unfolding record_in_cell
record_in_cell_conflict r existing cell found differ =
    elim (Bool-cases (records_equal existing r)) [
      | inl same ↦ absurd (differ (records_equal_sound existing r same))
      | inr other ↦ ground arith
    ]

cell_put_cell :
    (scope : TenantScope) (cell : ScopeCell) (s : MemoryStorage)
    → get_or_create_scope scope (put_cell scope cell s) ≡ cell
cell_put_cell scope cell s = rw lookup-insert_self

-- A retry of `recordInvoice` with the same record, after one that did not throw, does not throw
-- and changes nothing, whatever the state it started from.
pub record_invoice_retry :
    (scope : TenantScope) (r : InvoiceRecord) (s : MemoryStorage)
    → (record_invoice scope r s).0 ≡ ok tt
    → record_invoice scope r (record_invoice scope r s).1 ≡ (ok tt, (record_invoice scope r s).1)
unfolding record_invoice
record_invoice_retry scope r s h =
    let cell = (record_in_cell r (get_or_create_scope scope s)).1 in
    let again = record_in_cell_retry r (get_or_create_scope scope s) h in
    rw (cell_put_cell scope cell s, again, insert_twice)

-- A second record under an id that is taken, different from the stored one in any field, makes
-- `recordInvoice` throw and changes nothing.
pub record_invoice_conflict :
    (scope : TenantScope) (r existing : InvoiceRecord) (s : MemoryStorage)
    → load_invoice scope r.invoice_id s ≡ (ok (some existing), s)
    → existing ≢ r
    → record_invoice scope r s ≡ (err (storage_error (conflicting_payloads r.invoice_id)), s)
unfolding record_invoice load_invoice
record_invoice_conflict scope r existing s found differ =
    elim (Option-cases (lookup (scope_key scope) s.scopes)) [
      | inl missing ↦ ground arith
      | inr (cell, there) ↦ ground (
        arith,
        record_in_cell_conflict r existing cell,
        insert_same (scope_key scope) cell s.scopes,
      )
    ]

-- A `recordInvoice` that throws changes nothing.
pub record_invoice_thrown :
    (scope : TenantScope) (r : InvoiceRecord) (e : ZatcaError) (s : MemoryStorage)
    → (record_invoice scope r s).0 ≡ err e
    → (record_invoice scope r s).1 ≡ s
unfolding record_invoice record_in_cell lookup
record_invoice_thrown scope r e s thrown = elim (Option-cases (lookup (scope_key scope) s.scopes)) [
  | inl missing ↦ absurd (ground arith)
  | inr (cell, there) ↦ ground (arith, insert_same (scope_key scope) cell s.scopes)
]
