-- ===== src/Workflows.antt =====
-- server/workflows: the execution kernel.
pub mod Json
pub mod Types
pub mod Kernel
pub mod Ensures
pub mod Wellformed
pub mod Calls
pub mod Invariant
pub mod Reach
pub mod History
pub mod Transitions
