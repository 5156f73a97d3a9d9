-- ===== src/Council.antt =====
-- The permanent council: its tables, its gateway and its service.
pub mod Defs
pub mod Gateway
pub mod Service
pub mod Votes
pub mod Rows
pub mod Snapshot
pub mod Invariant
pub mod Safety
pub mod Voting
pub mod Decisions
pub mod Finality
pub mod Settled
mod Frame
pub mod Runs
mod Tests
