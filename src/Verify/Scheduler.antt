-- ===== src/Verify/Scheduler.antt =====
-- The single paid verifier slot (danus/verify/scheduler.py).
pub mod State
pub mod Cache
pub mod Moves
pub mod Calls
pub mod System
pub mod Accounts
pub mod Bounds
pub mod Safety
pub mod Reuse
mod Tests
