-- ===== src/Provenance.antt =====
-- server/provenance: the envelopes that bind evidence to an execution, and their validation.
pub mod Types
pub mod Service
pub mod Validity
pub mod Emission
