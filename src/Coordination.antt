-- ===== src/Coordination.antt =====
-- The durable coordinator of paid rounds (danus/coordination/).
pub mod Rows
pub mod Policy
pub mod Directive
pub mod Binding
pub mod Advance
pub mod Transactions
pub mod Admit
pub mod Slots
mod Evolution
mod History
mod Searches
pub mod Candidates
pub mod Outcomes
pub mod CandidateEnds
pub mod Requests
pub mod PhaseEnds
pub mod Admissions
pub mod OpenSlots
pub mod CarryForward
pub mod Tests
