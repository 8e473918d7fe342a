-- ===== src/Store/Audit.antt =====
-- The audit of reference counts (packages/ocap-kernel/src/store/methods/refcount-audit.ts): what
-- every stored count should be, computed from the references that the kernel holds.
pub mod Weights
pub mod Laws
pub mod Entries
pub mod Flags
pub mod Rows
pub mod CList
pub mod Removal
pub mod Pins
pub mod Keeps
pub mod Handlers
pub mod Delivery
pub mod Imports
pub mod PinRows
pub mod Naming
pub mod Hand
pub mod Messages
pub mod Reheld
pub mod Resolve
pub mod Settling
pub mod Shares
