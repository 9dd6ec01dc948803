-- ===== src/Workflows/Kernel.antt =====
-- server/workflows/kernel.ts: the state of `WorkflowExecutionKernel` and its methods.
pub mod State
pub mod Log
pub mod Create
pub mod Control
pub mod Handling
pub mod Start
pub mod NextSteps
pub mod Restore
