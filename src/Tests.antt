-- ===== src/Tests.antt =====
-- Concrete runs: each main theorem at a small store, request or input where its conditions hold.
pub mod Data
mod Server
mod ApiKeys
mod Internal
mod Validation
pub mod Tenants
mod Invoices
mod Gateway
mod Access
pub mod Onboarding
mod OnboardingRoute
use dokhna_tech_zatca.Prelude.{
  ℕ, ap, ◌↔◌, ◌≡◌, ◌≢◌, ◌<◌, refl, true, none, some, [], ◌∷◌, inl, arith, Option, ◌⊎◌,
}
use dokhna_tech_zatca.Prelude.Text.{Text, text, decimal, pad_start}
use dokhna_tech_zatca.Prelude.Eq.{list_beq}
use dokhna_tech_zatca.Prelude.Dict.{lookup, insert}
use dokhna_tech_zatca.Prelude.Exec.{ok, err}
use dokhna_tech_zatca.Errors.{ZatcaError, storage_error, signing_error}
use dokhna_tech_zatca.Storage.{TenantScope, InvoiceKind, simplified_tax_invoice, base_pih}
use dokhna_tech_zatca.Storage.Memory.{
  MemoryStorage, FormatInput, counter_key, scope_key, record_in_cell, default_formatter,
  increment_counter, get_previous_hash, record_invoice, load_invoice, records_equal,
  conflicting_payloads, create_memory_storage_adapter, year_month_for,
}
use dokhna_tech_zatca.Storage.Memory.Cells.{record_invoice_retry, record_invoice_conflict}
use dokhna_tech_zatca.Storage.Memory.Steps.{AllChained, here, increment}
use dokhna_tech_zatca.Storage.Memory.Counters.{increment_counter_grows}
use dokhna_tech_zatca.Storage.Memory.Numbers.{IsCalendar, default_formatter_injective}
use dokhna_tech_zatca.Issue.{
  issue_simplified_tax_invoice, reserve, finish, assert_scope, issue_phase2, Reservation,
  BuiltInvoice, issued_record,
}
use dokhna_tech_zatca.Issue.Dispatch.{dispatch, issue_invoice, require_signing}
use dokhna_tech_zatca.Issue.Failures.{AtMostCounted, issue_invoice_failed}
use dokhna_tech_zatca.Issue.Chains.{IsSound, IsSound-init, issue_invoice-IsSound}
use dokhna_tech_zatca.Issue.Refusals.{IsValidationError, issue_invoice_refused}
use dokhna_tech_zatca.Issue.Outcome.{Answers, issued_invoice, issue_phase2_outcome}
use dokhna_tech_zatca.Issue.Interleaving.{interleaved, beside, interleaved_forks}
use dokhna_tech_zatca.Http.{prepared, stop, request}
use dokhna_tech_zatca.Http.Spec.{Ends}
use dokhna_tech_zatca.Http.Loop.{request-Ends}
use dokhna_tech_zatca.Tests.Data.{
  shop, cafe, shop_egs, january, empty, first, second, builders, failing_builders, signing,
  dispatch_args, unsigned_args, shop_args, other_args, flaky, one_recorded,
}

abbrev first_held : Reservation
first_held = record {
  increment = record {
    sequence = 1;
    invoice_number = default_formatter (record {
      scope = shop;
      sequence = 1;
      year_month = (year_month_for january).year_month;
      year = 2026;
      month = 1;
    });
  };
  previous_invoice_hash = base_pih;
}

abbrev second_held : Reservation
second_held = record {
  increment = record {
    sequence = 2;
    invoice_number = default_formatter (record {
      scope = shop;
      sequence = 2;
      year_month = (year_month_for january).year_month;
      year = 2026;
      month = 1;
    });
  };
  previous_invoice_hash = base_pih;
}

first-Answers : Answers default_formatter shop simplified_tax_invoice empty first_held
unfolding increment_counter get_previous_hash lookup year_month_for
first-Answers = record { counted = refl; previous = refl }

abbrev counted_once : MemoryStorage
counted_once = (increment_counter default_formatter shop empty).1

second-Answers : Answers default_formatter shop simplified_tax_invoice counted_once second_held
unfolding get_previous_hash increment_counter lookup insert counter_key scope_key year_month_for
    list_beq decimal pad_start
second-Answers = record { counted = refl; previous = refl }

scope_matches : assert_scope shop_egs shop ≡ ok tt
unfolding assert_scope list_beq
scope_matches = refl

nothing_loaded : (id : Text) → (load_invoice shop id empty).0 ≡ ok none
unfolding load_invoice lookup
nothing_loaded id = refl

abbrev built : ℕ → BuiltInvoice
built n = record {
  invoice_xml = text "<Invoice/>";
  signed_xml = text "<Signed/>";
  invoice_hash = n ∷ base_pih;
  qr_code = text "AQ==";
}

abbrev one : Text
one = b'1' ∷ []

abbrev two : Text
two = b'2' ∷ []

one_is_not_two : one ≢ two
one_is_not_two e = absurd (ground arith)

x_is_not_y : first ≢ second
x_is_not_y e =
    let hashes : b'x' ∷ [] ≡ b'y' ∷ [] = ap (λ r. r.invoice_hash) e in absurd (ground arith)

abbrev a_number : FormatInput
a_number = record { scope = shop; sequence = 12; year_month = []; year = 2026; month = 1 }

abbrev cafe_number : FormatInput
cafe_number = record a_number { scope = cafe; year_month = text "202601" }

cafe_number-IsCalendar : IsCalendar cafe_number
cafe_number-IsCalendar = record {
  year_low = omega arith;
  year_high = omega arith;
  month_high = omega arith;
}

a_number-IsCalendar : IsCalendar a_number
a_number-IsCalendar = record {
  year_low = omega arith;
  year_high = omega arith;
  month_high = omega arith;
}

issue_invoice-IsSound_example :
    IsSound
      (issue_invoice
        (create_memory_storage_adapter default_formatter)
        builders
        dispatch_args
        empty).1
issue_invoice-IsSound_example =
    issue_invoice-IsSound default_formatter builders dispatch_args empty (IsSound-init january)

issue_invoice_refused_example :
    IsValidationError
      (issue_invoice
        (create_memory_storage_adapter default_formatter)
        builders
        unsigned_args
        empty).0
    × ((issue_invoice
          (create_memory_storage_adapter default_formatter)
          builders
          unsigned_args
          empty).1
        ≡ empty)
issue_invoice_refused_example =
    issue_invoice_refused (create_memory_storage_adapter default_formatter) builders unsigned_args
      empty (inl (refl, refl))

failing :
    (issue_invoice
      (create_memory_storage_adapter default_formatter)
      failing_builders
      dispatch_args
      empty).0
    ≡ err (signing_error (text "bad key"))
unfolding issue_invoice dispatch issue_simplified_tax_invoice issue_phase2 assert_scope reserve
    finish create_memory_storage_adapter increment_counter get_previous_hash lookup list_beq
    require_signing
failing = refl

issue_invoice_failed_example :
    let t =
      (issue_invoice
        (create_memory_storage_adapter default_formatter)
        failing_builders
        dispatch_args
        empty).1 in
    AtMostCounted default_formatter failing_builders dispatch_args.scope empty t
    × ((other : TenantScope) (id : Text)
        → (load_invoice other id t).0 ≡ (load_invoice other id empty).0)
    × ((other : TenantScope) (kind : InvoiceKind)
        → (get_previous_hash other (some kind) t).0 ≡ (get_previous_hash other (some kind) empty).0)
issue_invoice_failed_example =
    issue_invoice_failed default_formatter failing_builders dispatch_args empty
      (signing_error (text "bad key")) failing

issue_phase2_outcome_example :
    let (result, t) =
      issue_phase2
        (create_memory_storage_adapter default_formatter)
        builders
        simplified_tax_invoice
        shop_args
        signing
        empty in
    (result ≡ ok (issued_invoice first_held (built 1)))
    × ((load_invoice shop (b'1' ∷ []) t).0
        ≡ ok (some (issued_record simplified_tax_invoice shop_args first_held (built 1))))
    × ((get_previous_hash shop (some simplified_tax_invoice) t).0 ≡ ok (1 ∷ base_pih))
issue_phase2_outcome_example =
    issue_phase2_outcome default_formatter builders simplified_tax_invoice shop_args signing empty
      first_held scope_matches first-Answers (built 1) refl (nothing_loaded _)
      simplified_tax_invoice

interleaved_forks_example :
    let (result, t) =
      interleaved
        (create_memory_storage_adapter default_formatter)
        builders
        simplified_tax_invoice
        shop_args
        (beside shop_args other_args)
        signing
        empty in
    (result ≡ ok (issued_invoice first_held (built 1), issued_invoice second_held (built 2)))
    × (base_pih ≡ base_pih)
    × (1 ∷ base_pih ≢ base_pih → ¬ AllChained t)
interleaved_forks_example =
    interleaved_forks default_formatter builders simplified_tax_invoice shop_args other_args signing
      empty first_held second_held (built 1) (built 2) first-Answers second-Answers refl refl
      (nothing_loaded _) (nothing_loaded _) one_is_not_two

increment_counter_grows_example : 1 < 2
unfolding increment_counter lookup insert counter_key scope_key year_month_for list_beq decimal
    pad_start
increment_counter_grows_example =
    increment_counter_grows default_formatter shop empty counted_once first_held.increment
      second_held.increment refl here refl refl

record_invoice_retry_example : record_invoice shop first one_recorded ≡ (ok tt, one_recorded)
unfolding record_invoice record_in_cell lookup
record_invoice_retry_example = record_invoice_retry shop first empty refl

record_invoice_conflict_example :
    record_invoice shop second one_recorded
    ≡ (err (storage_error (conflicting_payloads (b'1' ∷ []))), one_recorded)
unfolding record_invoice record_in_cell lookup insert load_invoice scope_key list_beq
record_invoice_conflict_example =
    record_invoice_conflict shop second first one_recorded refl x_is_not_y

default_formatter_injective_example :
    (a_number.year ≡ cafe_number.year)
    × (a_number.month ≡ cafe_number.month)
    × (a_number.sequence ≡ cafe_number.sequence)
unfolding default_formatter
default_formatter_injective_example =
    default_formatter_injective a_number cafe_number a_number-IsCalendar cafe_number-IsCalendar refl

request-Ends_example :
    ((e : ZatcaError) × (prepared flaky ≡ err e) × (request flaky ≡ stop (err e)))
    ⊎ ((body : Option Text) × (prepared flaky ≡ ok body)
        × (k : ℕ) × Ends flaky 3 0 k (request flaky))
request-Ends_example = request-Ends flaky
