-- ===== src/Tests.antt =====
-- Concrete runs: a small fleet on which each theorem with hypotheses is applied.
pub mod Fleet
pub mod Liveness
pub mod Ledger
pub mod Secrets
pub mod Registry
pub mod Dispatch
pub mod Enrolling
pub mod Cancelling
pub mod Connecting
pub mod Caller
pub mod Verifying
pub mod Serving
pub mod Configuring
pub mod Auditing
pub mod Migrating
