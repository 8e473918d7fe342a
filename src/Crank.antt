-- ===== src/Crank.antt =====
-- Cranks (packages/ocap-kernel/src/store/methods/crank.ts): units of work that the kernel commits or
-- rolls back.
pub mod Savepoints
pub mod Rollback
pub mod Caches
