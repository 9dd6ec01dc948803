-- ===== src/Capabilities.antt =====
-- server/capabilities: the discovery of capabilities, the selection of one and the release of its schema.
pub mod Types
pub mod Service
pub mod Release
pub mod Payloads
pub mod Runtime
pub mod Governed
pub mod Turns
pub mod Select
pub mod Calls
pub mod Reach
