-- ===== src/Tests.antt =====
-- Examples: the theorems at concrete inputs.
mod Data
mod Provenance
mod NextActions
mod Kernel
mod Governance
mod Control
mod Stores
mod Durable
mod Influence
mod Capabilities
