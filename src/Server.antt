-- ===== src/Server.antt =====
-- packages/server/src/: the stateful parts of the HTTP server.
pub mod Idempotency
pub mod Semaphore
pub mod Tenants
pub mod ApiKeys
pub mod Auth
pub mod Audit
pub mod Invoices
pub mod Vault
pub mod Onboarding
pub mod ErrorResponses
