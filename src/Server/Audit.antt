-- ===== src/Server/Audit.antt =====
-- packages/server/src/audit/: the audit log in memory and the redaction of its payloads.
pub mod Redact
pub mod Clean
pub mod Log
pub mod List
