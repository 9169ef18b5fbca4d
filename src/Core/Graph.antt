-- ===== src/Core/Graph.antt =====
-- The graph of facts on the disk (danus/core/factgraph.py).
pub mod Disk
pub mod Descendants
pub mod Glossaries
pub mod Revoke
pub mod Add
pub mod Operations
mod Tests
