-- ===== src/Store.antt =====
-- The kernel store (packages/ocap-kernel/src/store).
pub mod State
pub mod Counts
pub mod Object
pub mod RefCount
pub mod Reachable
pub mod CList
pub mod Pinned
pub mod Revocation
pub mod Promise
pub mod Vat
pub mod Gc
pub mod Collect
pub mod Translate
pub mod GcHandlers
pub mod GcSchedule
pub mod Audit
pub mod Scheduling
pub mod Idle
pub mod Subclusters
pub mod Membership
