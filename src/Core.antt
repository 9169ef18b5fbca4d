-- ===== src/Core.antt =====
-- The facts and what is checked of them (danus/core/).
pub mod Verdict
pub mod Graph
pub mod Tests
