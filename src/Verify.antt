-- ===== src/Verify.antt =====
-- The verification service (danus/verify/).
pub mod Scheduler
