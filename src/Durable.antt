-- ===== src/Durable.antt =====
-- The durable execution history: shared/execution-history.ts and, of server/workflows,
-- execution-history-store.ts and durable-runtime.ts.
pub mod Types
pub mod Names
pub mod Checks
pub mod Contract
pub mod Store
pub mod Snapshots
pub mod Runtime
pub mod RoundTrip
pub mod Reordered
pub mod Valid
pub mod Identity
pub mod Queries
