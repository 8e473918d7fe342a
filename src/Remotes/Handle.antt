-- ===== src/Remotes/Handle.antt =====
-- The sequence numbers, acknowledgements and retransmissions between two kernels
-- (packages/ocap-kernel/src/remotes/kernel/RemoteHandle.ts).
pub mod Rows
pub mod State
pub mod Acks
pub mod Sending
pub mod Transmit
pub mod Retransmit
pub mod Rounds
pub mod Flushing
pub mod Recovery
pub mod Acknowledged
pub mod Windows
pub mod Numbered
pub mod Runs
pub mod Restarts
pub mod Steps
pub mod Kept
pub mod KeptTurns
pub mod Reception
pub mod Sessions
pub mod Delivered
pub mod Deliveries
pub mod Inbound
pub mod Receipts
pub mod Taken
pub mod Lasting
pub mod Once
pub mod Counted
