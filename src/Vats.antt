-- ===== src/Vats.antt =====
-- The kernel's side of a vat (packages/ocap-kernel/src/vats).
pub mod Syscalls
pub mod Syscalled
