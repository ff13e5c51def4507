-- ===== src/Tests/Data.antt =====
-- Two EGS units, an empty store, builders and a flaky endpoint for the concrete runs.
use dokhna_tech_zatca.Prelude.{ℕ, zero, suc, true, none, some, [], ◌∷◌}
use dokhna_tech_zatca.Prelude.Text.{text}
use dokhna_tech_zatca.Prelude.Exec.{ok, err}
use dokhna_tech_zatca.Errors.{signing_error, plain_error}
use dokhna_tech_zatca.Egs.{EgsUnitInfo}
use dokhna_tech_zatca.Storage.{
  TenantScope, InvoiceRecord, pending, simplified_tax_invoice, base_pih,
}
use dokhna_tech_zatca.Storage.Memory.{Date, MemoryStorage, record_invoice}
use dokhna_tech_zatca.Issue.{Builders, Signing, IssueArgs}
use dokhna_tech_zatca.Issue.Dispatch.{IssueInvoiceArgs}
use dokhna_tech_zatca.Http.{HttpEnv, Outcome}

abbrev pub shop : TenantScope
shop = record { vat_number = b'3' ∷ b'3' ∷ []; egs_uuid = b'a' ∷ [] }

abbrev pub cafe : TenantScope
cafe = record { vat_number = b'3' ∷ b'4' ∷ []; egs_uuid = b'a' ∷ [] }

abbrev pub shop_egs : EgsUnitInfo
shop_egs = record {
  uuid = b'a' ∷ [];
  custom_id = text "EGS1";
  model = text "POS";
  crn_number = text "1010101010";
  vat_name = text "Shop";
  vat_number = b'3' ∷ b'3' ∷ [];
  branch_name = text "Main";
  branch_industry = text "Retail";
  location = record {
    city_name = text "Riyadh";
    city_subdivision = text "North";
    street = text "King";
    plot_identification = text "0000";
    building = text "0001";
    postal_zone = text "31952";
  };
  certificate = none;
}

abbrev pub january : Date
january = record { utc_full_year = 2026; utc_month = 0 }

abbrev pub empty : MemoryStorage
empty = record { counters = []; scopes = []; now = january }

abbrev pub first : InvoiceRecord
first = record {
  invoice_id = b'1' ∷ [];
  kind = simplified_tax_invoice;
  serial = text "202601000001";
  counter_number = 1;
  uuid = text "a";
  invoice_hash = b'x' ∷ [];
  previous_invoice_hash = base_pih;
  signed_xml = text "<Invoice/>";
  qr_base64 = text "AQ==";
  issued_at = 7;
  status = pending;
  clearance_number = none;
  validation_results = none;
}

-- the same id with another hash
abbrev pub second : InvoiceRecord
second = record first { invoice_hash = b'y' ∷ [] }

abbrev pub one_recorded : MemoryStorage
one_recorded = (record_invoice shop first empty).1

abbrev pub signing : Signing
signing = record { certificate = text "cert"; private_key = text "key" }

-- the hash is made of the number and the previous hash
abbrev pub builders : Builders ℕ
builders = record {
  build = λ input s. ok (record {
    invoice_xml = text "<Invoice/>";
    signed_xml = text "<Signed/>";
    invoice_hash = input.details ∷ input.previous_invoice_hash;
    qr_code = text "AQ==";
  });
  build_phase1 = λ input. ok (record { invoice_xml = text "<Invoice/>"; qr_code = text "AQ==" });
}

abbrev pub failing_builders : Builders ℕ
failing_builders = record builders { build = λ input s. err (signing_error (text "bad key")) }

abbrev pub shop_args : IssueArgs ℕ
shop_args = record {
  input = 1;
  egs_info = shop_egs;
  scope = shop;
  invoice_id = some (b'1' ∷ []);
  random_uuid = text "u1";
  now = 7;
}

abbrev pub other_args : IssueArgs ℕ
other_args = record shop_args { input = 2; invoice_id = some (b'2' ∷ []) }

abbrev pub dispatch_args : IssueInvoiceArgs ℕ
dispatch_args = record {
  input = record {
    kind = simplified_tax_invoice;
    egs_info = shop_egs;
    invoice_counter_number = 0;
    invoice_serial_number = [];
    previous_invoice_hash = [];
    details = 1;
  };
  scope = shop;
  signing = some signing;
  random_uuid = text "u1";
  now = 7;
}

abbrev pub unsigned_args : IssueInvoiceArgs ℕ
unsigned_args = record dispatch_args { signing = none }

-- a 503, a dropped connection, then a success
abbrev flaky_fetch : ℕ → Outcome
flaky_fetch zero = ok (record { status = 503; header = λ n. none; body = ok [] })
flaky_fetch (suc zero) = err (plain_error (text "TypeError") none (text "fetch failed"))
flaky_fetch _ = ok (record { status = 200; header = λ n. none; body = ok (text "done") })

abbrev pub flaky : HttpEnv
flaky = record {
  json_parse = λ s. none;
  timeout_ms = 30_000;
  retries = record { count = 3; base_ms = 250; jitter_ms = 0 };
  jitter = λ n. 0;
  fetch_available = true;
  body_string = ok none;
  fetch = flaky_fetch;
}
