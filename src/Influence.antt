-- ===== src/Influence.antt =====
-- server/influence-receipt: the references of an influence receipt, resolved against the kernel.
pub mod Receipt
pub mod References
