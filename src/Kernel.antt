-- ===== src/Kernel.antt =====
-- The kernel queue (packages/ocap-kernel/src/KernelQueue.ts) and the router over it (KernelRouter.ts).
pub mod State
pub mod Enqueue
pub mod References
pub mod Resolving
pub mod Resolution
pub mod Groups
pub mod Subscribers
pub mod FlushItems
pub mod Flush
pub mod Arrivals
pub mod Turns
pub mod Router
pub mod Routing
pub mod Undeliverable
pub mod Services
pub mod ArrivalBounds
pub mod Notify
pub mod Notifying
pub mod Held
pub mod Ingress
