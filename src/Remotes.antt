-- ===== src/Remotes.antt =====
-- Communication with remote kernels (packages/ocap-kernel/src/remotes).
pub mod RateLimiter
pub mod RateBounds
pub mod Reconnection
pub mod Failures
pub mod Streaks
pub mod Handle
