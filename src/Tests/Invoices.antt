-- ===== src/Tests/Invoices.antt =====
-- Concrete runs of the invoice route.
use dokhna_tech_zatca.Prelude.{ℕ, ◌≡◌, refl, true, false, none, some, [], ◌∷◌, arith}
use dokhna_tech_zatca.Prelude.Eq.{list_beq}
use dokhna_tech_zatca.Prelude.Text.{Text, text_eq, text, decimal, digits, pad_start}
use dokhna_tech_zatca.Prelude.Dict.{lookup, insert}
use dokhna_tech_zatca.Prelude.Exec.{ok, err}
use dokhna_tech_zatca.Json.{null}
use dokhna_tech_zatca.Errors.{storage_error, signing_error}
use dokhna_tech_zatca.Storage.Memory.{
  MemoryStorage, default_formatter, create_memory_storage_adapter, unknown_invoice,
  increment_counter, get_previous_hash, record_invoice, record_in_cell, load_invoice, scope_key,
  counter_key, year_month_for,
}
use dokhna_tech_zatca.Issue.{
  IssuedInvoice, assert_scope, reserve, finish, issue_phase2, issue_simplified_tax_invoice,
}
use dokhna_tech_zatca.Issue.Dispatch.{issue_invoice, dispatch, require_signing}
use dokhna_tech_zatca.Server.Tenants.{to_tenant_scope}
use dokhna_tech_zatca.Server.Tenants.Store.{new_record}
use dokhna_tech_zatca.Server.Idempotency.{
  begin, read_fresh, commit, release, build_idempotency_cache_key,
}
use dokhna_tech_zatca.Prelude.Text.Trim.{is_space, trim_start, trim_end}
use dokhna_tech_zatca.Server.Invoices.{
  Authenticated, IssueBody, Request, RouteDeps, RouteState, InvoiceResponse, single, replayed,
  cached, cache_key_of, read_idempotency_key, issue_args, post_invoice, work, guarded, or_release,
  proceed_with, begin_idempotency, commit_idempotency, release_idempotency, submit_issued, audit,
  require_submittable, ttl, response_of, unsubmitted,
}
use dokhna_tech_zatca.Server.Invoices.Replay.{
  begun, post_invoice_replays, post_invoice_error_releases,
}
use dokhna_tech_zatca.Server.Invoices.Lost.{over_memory, post_invoice_lost}
use dokhna_tech_zatca.Tests.Data.{empty, builders, failing_builders, dispatch_args}
use dokhna_tech_zatca.Tests.Tenants.{ref, input}

abbrev key : Text
key = b'k' ∷ []

abbrev auth : Authenticated
auth = record {
  tenant = new_record ref input 1;
  signing = record {
    private_key = text "key";
    production_certificate = text "cert";
    production_binary_security_token = text "token";
    production_api_secret = text "secret";
    compliance_certificate = none;
    compliance_binary_security_token = none;
    compliance_api_secret = none;
  };
  token_id = text "t1";
}

abbrev body : IssueBody ℕ
body = record { input = dispatch_args.input; submit = true }

abbrev local_body : IssueBody ℕ
local_body = record body { submit = false }

abbrev request : Request ℕ
request = record {
  tenant_ref = ref;
  auth = ok auth;
  body = ok body;
  idempotency_key = single key;
  random_uuid = b'u' ∷ [];
  now = 7;
  begin_read_at = 10;
  begin_set_at = 10;
  commit_at = 20;
}

abbrev local_request : Request ℕ
local_request = record request { body = ok local_body }

abbrev retry : Request ℕ
retry = record local_request { begin_read_at = 30; begin_set_at = 30; commit_at = 40 }

abbrev deps : RouteDeps MemoryStorage ℕ
deps = record {
  storage = create_memory_storage_adapter default_formatter;
  builders = builders;
  digest = λ k. k;
  idempotency_window_ms = 100;
  submit_invoice = λ xml hash. ok (some null);
  write_audit = λ entry. ok tt;
  stringify = λ r. r.invoice_number;
}

abbrev failing_deps : RouteDeps MemoryStorage ℕ
failing_deps = record deps { builders = failing_builders }

abbrev start : RouteState MemoryStorage
start = record { stored = empty; entries = []; submissions = []; audited = [] }

read_key : read_idempotency_key (single key) ≡ ok (some key)
unfolding read_idempotency_key trim_start trim_end is_space
read_key = refl

abbrev issued : IssuedInvoice
issued = record {
  invoice_xml = text "<Invoice/>";
  signed_xml = text "<Signed/>";
  invoice_hash = 1 ∷ dokhna_tech_zatca.Storage.base_pih;
  qr_code = text "AQ==";
  sequence = 1;
  invoice_number = default_formatter (record {
    scope = to_tenant_scope auth.tenant;
    sequence = 1;
    year_month = (year_month_for empty.now).year_month;
    year = 2026;
    month = 1;
  });
}

abbrev made : MemoryStorage
made =
    (issue_invoice (create_memory_storage_adapter default_formatter) builders
      (issue_args deps auth request body) empty).1

post_invoice_lost_example : post_invoice (over_memory default_formatter deps) request start ≡ (
  err (storage_error (unknown_invoice issued.invoice_number)),
  record start {
    stored = made;
    entries =
        (release
          (cache_key_of (over_memory default_formatter deps) ref key)
          (begun (over_memory default_formatter deps) request key start).entries).1;
    submissions = text "<Signed/>" ∷ [];
  },
)
unfolding issue_invoice dispatch require_signing issue_simplified_tax_invoice issue_phase2 reserve
    finish assert_scope create_memory_storage_adapter increment_counter get_previous_hash
    record_invoice record_in_cell load_invoice lookup insert scope_key counter_key year_month_for
    default_formatter list_beq decimal digits pad_start text to_tenant_scope begin read_fresh
post_invoice_lost_example =
    post_invoice_lost default_formatter deps request auth body key refl refl read_key start issued
      made (some null) refl refl refl refl refl refl

abbrev local_response : InvoiceResponse
local_response = response_of deps (dokhna_tech_zatca.Issue.Dispatch.phase2 issued) unsubmitted

post_invoice_replays_example :
    post_invoice deps retry (post_invoice deps local_request start).1
    ≡ (ok (replayed (cached deps local_response none)), (post_invoice deps local_request start).1)
unfolding issue_invoice dispatch require_signing issue_simplified_tax_invoice issue_phase2 reserve
    finish assert_scope create_memory_storage_adapter increment_counter get_previous_hash
    record_invoice record_in_cell lookup insert scope_key counter_key year_month_for
    default_formatter list_beq decimal digits pad_start text to_tenant_scope begin read_fresh commit
    post_invoice begin_idempotency proceed_with guarded or_release work submit_issued audit
    require_submittable commit_idempotency read_idempotency_key trim_start trim_end is_space ttl
    build_idempotency_cache_key
post_invoice_replays_example =
    post_invoice_replays deps local_request retry auth auth local_body local_body key start
      local_response none refl refl refl refl refl refl refl refl (ground arith)

post_invoice_error_releases_example :
    lookup (cache_key_of failing_deps ref key) (post_invoice failing_deps request start).1.entries
    ≡ none
unfolding issue_invoice dispatch require_signing issue_simplified_tax_invoice issue_phase2 reserve
    finish assert_scope create_memory_storage_adapter increment_counter get_previous_hash lookup
    insert scope_key counter_key year_month_for default_formatter list_beq decimal digits pad_start
    text to_tenant_scope begin read_fresh post_invoice begin_idempotency proceed_with guarded
    or_release work require_submittable release_idempotency release read_idempotency_key trim_start
    trim_end is_space ttl build_idempotency_cache_key
post_invoice_error_releases_example =
    post_invoice_error_releases failing_deps request auth body key refl refl read_key start
      (signing_error (text "bad key")) refl refl
