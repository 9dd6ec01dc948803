-- ===== src/NextActions.antt =====
-- shared/next-actions.ts: what a finished execution offers next.
pub mod Types
pub mod Policies
pub mod Resolve
pub mod Partition
pub mod Catalogue
