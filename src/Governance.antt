-- ===== src/Governance.antt =====
-- server/governance: the guards on instructions, publications and tools.
pub mod Guards
pub mod Publication
pub mod Authority
pub mod Instructions
