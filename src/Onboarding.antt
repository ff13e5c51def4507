-- ===== src/Onboarding.antt =====
-- packages/core/src/compliance/ and packages/core/src/onboarding/: the test invoices, their runner
-- and the orchestrator of an onboarding.
pub mod Scenarios
pub mod Runner
pub mod Onboard
