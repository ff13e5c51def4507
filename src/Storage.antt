-- ===== src/Storage.antt =====
-- packages/core/src/types/storage.ts and types/invoice.ts: the records that are persisted and the
-- interface of a storage backend. A backend over a state type `S` is a record of stateful calls.
pub mod Memory
pub mod Internal
use dokhna_tech_zatca.Prelude.{ℕ, suc, true, Option, ◌≡◌, ◌↔◌, refl}
use dokhna_tech_zatca.Prelude.Eq.{Eq, retract_eq}
use dokhna_tech_zatca.Prelude.{eqb}
use dokhna_tech_zatca.Prelude.Text.{Text, text}
use dokhna_tech_zatca.Json.{Json}
use dokhna_tech_zatca.Errors.{Exec}

pub data InvoiceKind : Type 0 where
  simplified_tax_invoice standard_tax_invoice : InvoiceKind
  simplified_credit_note standard_credit_note : InvoiceKind
  simplified_debit_note standard_debit_note : InvoiceKind
  phase1_invoice phase1_credit_note : InvoiceKind

abbrev pub kind_code : InvoiceKind → ℕ
kind_code simplified_tax_invoice = 0
kind_code standard_tax_invoice = 1
kind_code simplified_credit_note = 2
kind_code standard_credit_note = 3
kind_code simplified_debit_note = 4
kind_code standard_debit_note = 5
kind_code phase1_invoice = 6
kind_code phase1_credit_note = 7

kind_at : ℕ → InvoiceKind
kind_at ℕ.zero = simplified_tax_invoice
kind_at (suc ℕ.zero) = standard_tax_invoice
kind_at (suc (suc ℕ.zero)) = simplified_credit_note
kind_at (suc (suc (suc ℕ.zero))) = standard_credit_note
kind_at (suc (suc (suc (suc ℕ.zero)))) = simplified_debit_note
kind_at (suc (suc (suc (suc (suc ℕ.zero))))) = standard_debit_note
kind_at (suc (suc (suc (suc (suc (suc ℕ.zero)))))) = phase1_invoice
kind_at _ = phase1_credit_note

kind_at-kind_code : (k : InvoiceKind) → kind_at (kind_code k) ≡ k
unfolding kind_at
kind_at-kind_code simplified_tax_invoice = refl
kind_at-kind_code _ = refl

pub kind_beq_iff : (a b : InvoiceKind) → (eqb (kind_code a) (kind_code b) ≡ true) ↔ (a ≡ b)
kind_beq_iff = retract_eq kind_code kind_at kind_at-kind_code

instance abbrev pub kind_eq : Eq InvoiceKind
kind_eq = record { beq = λ a b. eqb (kind_code a) (kind_code b); beq_iff = kind_beq_iff }

pub data InvoiceStatus : Type 0 where
  pending submitted accepted rejected cancelled : InvoiceStatus

abbrev status_code : InvoiceStatus → ℕ
status_code pending = 0
status_code submitted = 1
status_code accepted = 2
status_code rejected = 3
status_code cancelled = 4

status_at : ℕ → InvoiceStatus
status_at ℕ.zero = pending
status_at (suc ℕ.zero) = submitted
status_at (suc (suc ℕ.zero)) = accepted
status_at (suc (suc (suc ℕ.zero))) = rejected
status_at _ = cancelled

status_at-status_code : (s : InvoiceStatus) → status_at (status_code s) ≡ s
unfolding status_at
status_at-status_code pending = refl
status_at-status_code _ = refl

pub status_beq_iff : (a b : InvoiceStatus) → (eqb (status_code a) (status_code b) ≡ true) ↔ (a ≡ b)
status_beq_iff = retract_eq status_code status_at status_at-status_code

instance abbrev pub status_eq : Eq InvoiceStatus
status_eq = record { beq = λ a b. eqb (status_code a) (status_code b); beq_iff = status_beq_iff }

pub record TenantScope : Type 0 where
  pub vat_number : Text
  pub egs_uuid : Text

-- `issued_at` is the Date's epoch time in ms.
pub record InvoiceRecord : Type 0 where
  pub invoice_id : Text
  pub kind : InvoiceKind
  pub serial : Text
  pub counter_number : ℕ
  pub uuid : Text
  pub invoice_hash : Text
  pub previous_invoice_hash : Text
  pub signed_xml : Text
  pub qr_base64 : Text
  pub issued_at : ℕ
  pub status : InvoiceStatus
  pub clearance_number : Option Text
  pub validation_results : Option Json

-- The result of `incrementCounter`.
pub record Increment : Type 0 where
  pub sequence : ℕ
  pub invoice_number : Text

-- A throw of a call is an error of its `Exec`; `null` is `none`.
pub record StorageAdapter (S : Type 0) : Type 0 where
  pub increment_counter : TenantScope → Exec S Increment
  pub get_previous_hash : TenantScope → Option InvoiceKind → Exec S Text
  pub record_invoice : TenantScope → InvoiceRecord → Exec S (Unit {0})
  pub load_invoice : TenantScope → Text → Exec S (Option InvoiceRecord)
  pub update_invoice_status : TenantScope → Text → InvoiceStatus → Exec S (Unit {0})

-- The hash before the first document, `BASE_PIH`.
unfoldable pub base_pih : Text
base_pih =
    text "NWZlY2ViNjZmZmM4NmYzOGQ5NTI3ODZjNmQ2OTZjNzljMmRiYzIzOWRkNGU5MWI0NjcyOWQ3M2EyN2ZiNTdlOQ=="
