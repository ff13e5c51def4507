-- ===== src/Lib.antt =====
-- Verification of the ZATCA e-invoicing packages: the issuing of hash-chained invoices, their
-- storage, the client of the gateway, and the stateful parts of the multi-tenant server.
--
-- The parts and where they are modelled:
-- - Prelude: shared notation and lemmas. JavaScript strings are lists of code units (Prelude.Text),
--   a Map is the list of its entries in insertion order (Prelude.Dict), code that may throw is a
--   function from a state to a result and a state (Prelude.Exec); code that may throw and writes
--   nothing is a result (Prelude.Fallible). Trim and Parts are methods of strings.
-- - Json, Errors, Egs, Storage: packages/core/src/types/{errors,egs,storage,invoice}.ts and
--   packages/server/src/errors.ts. `StorageAdapter S` is the interface of a backend over states S.
--   Json.Quote and Json.Stringify are how `JSON.stringify` prints a decoded value (ECMA-262), which
--   `recordInvoice` compares; Stringify.Injective is about the texts.
-- - Storage.Memory: packages/storage-memory/src/adapter.ts. `MemoryStorage` holds the two Maps and
--   the clock; `increment_counter`, `get_previous_hash`, `record_invoice`, `load_invoice` and
--   `update_invoice_status` are its methods. Chain and Steps hold the specification, a list of
--   links; Counters, Cells, Keys, Isolation, Reads and Numbers what follows for the calls.
-- - Validation: packages/core/src/validation/{vat-number,uuid}.ts, and in Formats
--   crn.ts and base64.ts.
-- - Storage.Internal: packages/core/src/compliance/_internal-memory-storage.ts.
-- - Issue: packages/core/src/issue/. `issue_phase2` is the body that the six Phase 2 issuers share,
--   `issue_phase1` that of the two others, Issue.Dispatch is dispatch.ts. The issuers use a
--   `StorageAdapter` and the `Builders` interface. Refusals, Failures, Outcome, Chains and
--   Interleaving hold the theorems.
-- - Http: packages/core/src/api/http-client.ts. `attempts` is the retry loop; Http.Spec tells what a
--   request comes to without it, Http.Loop relates the two, Http.Errors is about what it throws.
-- - Xml: the queries of packages/core/src/xml/document.ts, over the value that the parser makes.
-- - Qr: packages/core/src/qr/. `create_tlv` writes the entries, Qr.Phases makes the two codes; Decode
--   reads entries back, Scan is about what a reader of a code finds.
-- - Api: packages/core/src/api/ but for the client: endpoints.ts and headers.ts, Certificates the two
--   calls that issue certificates, Invoices the four calls about invoices. The calls use the
--   interface `Gateway W`, which `http_gateway` fills with the client; Calls is about a submission.
-- - Onboarding: Scenarios and Runner are packages/core/src/compliance/{test-invoices,run-tests}.ts,
--   with Runner.Report on what the runner reports; Onboard is packages/core/src/onboarding/onboard.ts,
--   with Onboard.Gate on what stands before the production credentials.
-- - Server.Idempotency, Server.Semaphore, Server.ErrorResponses: packages/server/src/middleware/.
-- - Server.Tenants: packages/server/src/tenants/{types,registry-memory}.ts, the tenant store; Lock is
--   about the onboarding claim, History about what no call changes, Listing is its `list`.
-- - Server.ApiKeys: packages/server/src/tenants/registry-memory.ts, the API-key store; Tokens is about
--   what a presented token is taken for, Listing is its `list`.
-- - Server.Invoices: packages/server/src/routes/tenant-invoices.ts, POST, which brings the tenant
--   store's records, the idempotency store, the issuers and the storage together.
-- - Server.Vault: packages/server/src/tenants/registry-memory.ts, the credential vault.
-- - Server.Auth: packages/server/src/auth/: AdminKeys, and TenantBearer over the API-key store.
-- - Server.Audit: packages/server/src/audit/: Redact and Log; Clean and List are about them.
-- - Server.Onboarding: packages/server/src/onboarding/run.ts, which brings the tenant store, the vault,
--   the audit log and an `onboardFn` together. Live, Persisted and Attempt follow a tenant through
--   the calls of a run, Settled says how a run ends, and Default is a run with the
--   `onboard` of the library. Api.Keeps, Onboarding.Runner.Keeps and Onboarding.Onboard.Keeps carry
--   what the calls of the world outside leave as it is through the library's `onboard`.
-- - Tests: the theorems of the results that have conditions, each at a concrete input.
--
-- Bounds and fuel: the retry loop recurs on the attempts that are left, so it ends by its form; all
-- else is structural. Numbers are natural numbers: counters, statuses and times in ms stay below
-- 2 ^ 53 in the program. What `Date.now()`, `randomUUID()` and `fetch` return is given to each call,
-- once for each place that reads it. A call that does not await inside is one step.
--
-- Not modelled: set, delete and printing of XML, canonicalisation, signing and OpenSSL (libraries);
-- the arithmetic of the invoice builders, on doubles, which the issuers take as an interface; the
-- database adapters, registries and audit logs, whose queries a database runs; AES-GCM; the zod
-- schemas, the other routes, configuration and metrics.
pub mod Prelude
pub mod Json
pub mod Errors
pub mod Storage
pub mod Egs
pub mod Validation
pub mod Xml
pub mod Qr
pub mod Issue
pub mod Http
pub mod Api
pub mod Onboarding
pub mod Server
pub mod Tests
