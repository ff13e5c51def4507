-- ===== src/Onboarding/Scenarios.antt =====
-- packages/core/src/compliance/test-invoices.ts: the six inputs that the runner issues.
use dokhna_tech_zatca.Prelude.{ℕ, Option, none, some, List, [], ◌∷◌, or_else}
use dokhna_tech_zatca.Prelude.Text.{Text, text}
use dokhna_tech_zatca.Storage.{
  InvoiceKind, simplified_tax_invoice, standard_tax_invoice, simplified_credit_note,
  standard_credit_note, simplified_debit_note, standard_debit_note,
}

pub record LineItem : Type 0 where
  pub id : Text
  pub name : Text
  pub quantity : ℕ
  pub tax_exclusive_price : ℕ
  pub vat_percent : ℕ

pub data Buyer : Type 0 where
  buyer_name : Text → Buyer
  buyer_info : (registration_name identity_scheme identity_number : Text) → Buyer

pub record Cancelation : Type 0 where
  pub canceled_invoice_number : ℕ
  pub payment_method : Text
  pub cancelation_type : Text
  pub reason : Text

pub record ScenarioInput : Type 0 where
  pub kind : InvoiceKind
  pub issue_date : Text
  pub issue_time : Text
  pub line_items : List LineItem
  pub buyer : Buyer
  pub cancelation : Option Cancelation

pub record ScenarioDateOverrides : Type 0 where
  pub issue_date : Option Text
  pub issue_time : Option Text

unfoldable pub default_issue_date : Text
default_issue_date = text "2024-01-15"

unfoldable pub default_issue_time : Text
default_issue_time = text "12:00:00Z"

unfoldable pub make_compliance_line_item : LineItem
make_compliance_line_item = record {
  id = text "1";
  name = text "Test Item";
  quantity = 1;
  tax_exclusive_price = 100;
  vat_percent = 15;
}

-- The parts that the six scenarios share.
abbrev scenario : InvoiceKind → ScenarioDateOverrides → Buyer → Option Cancelation → ScenarioInput
scenario kind overrides buyer cancelation = record {
  kind = kind;
  issue_date = or_else overrides.issue_date default_issue_date;
  issue_time = or_else overrides.issue_time default_issue_time;
  line_items = make_compliance_line_item ∷ [];
  buyer = buyer;
  cancelation = cancelation;
}

abbrev customer : Buyer
customer = buyer_name (text "Test Customer")

abbrev company : Buyer
company = buyer_info (text "Test Buyer Co.") (text "CRN") (text "2020202020")

abbrev credit_of : ℕ → Option Cancelation
credit_of n = some (record {
  canceled_invoice_number = n;
  payment_method = text "10";
  cancelation_type = text "381";
  reason = text "Compliance test cancellation";
})

abbrev debit_of : ℕ → Option Cancelation
debit_of n = some (record {
  canceled_invoice_number = n;
  payment_method = text "10";
  cancelation_type = text "383";
  reason = text "Compliance test additional charge";
})

unfoldable pub make_simplified_invoice_scenario : ScenarioDateOverrides → ScenarioInput
make_simplified_invoice_scenario overrides = scenario simplified_tax_invoice overrides customer none

unfoldable pub make_standard_invoice_scenario : ScenarioDateOverrides → ScenarioInput
make_standard_invoice_scenario overrides = scenario standard_tax_invoice overrides company none

unfoldable pub make_simplified_credit_note_scenario : ScenarioDateOverrides → ScenarioInput
make_simplified_credit_note_scenario overrides =
    scenario simplified_credit_note overrides customer (credit_of 1)

unfoldable pub make_standard_credit_note_scenario : ScenarioDateOverrides → ScenarioInput
make_standard_credit_note_scenario overrides =
    scenario standard_credit_note overrides company (credit_of 2)

unfoldable pub make_simplified_debit_note_scenario : ScenarioDateOverrides → ScenarioInput
make_simplified_debit_note_scenario overrides =
    scenario simplified_debit_note overrides customer (debit_of 1)

unfoldable pub make_standard_debit_note_scenario : ScenarioDateOverrides → ScenarioInput
make_standard_debit_note_scenario overrides =
    scenario standard_debit_note overrides company (debit_of 2)
