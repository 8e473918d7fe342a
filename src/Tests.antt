-- ===== src/Tests.antt =====
-- Runs of the modelled code at concrete inputs.
pub mod Audited
pub mod Queues
pub mod Scheduling
pub mod Cranks
pub mod Kernel
pub mod Routing
pub mod Remotes
pub mod Sessions
pub mod Peers
