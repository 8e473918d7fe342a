-- ===== src/Queue.antt =====
-- Stored queues and the run queue (packages/ocap-kernel/src/store/methods/base.ts,
-- packages/ocap-kernel/src/store/methods/queue.ts).
pub mod Stored
pub mod Contents
pub mod Run
pub mod RunLength
