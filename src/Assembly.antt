-- ===== src/Assembly.antt =====
-- The supreme assembly: bot/services/supreme_assembly_service.py over
-- db/gateway/supreme_assembly_governance.py.
pub mod Defs
pub mod Service
mod Rows
mod Standing
mod Votes
mod Changes
mod Runs
mod Ballots
mod Tests
