-- ===== src/Economy.antt =====
-- The currency: bot/services/transfer_service.py, adjustment_service.py and balance_service.py over
-- the gateways economy_transfers.py, economy_adjustments.py and economy_queries.py of db/gateway,
-- with the SQL functions that these call.
pub mod Defs
pub mod Transfer
pub mod Service
pub mod Adjust
mod Accounts
mod Moves
mod Log
mod Runs
mod Audit
mod Cooldown
mod Answers
mod Refinement
mod Tests
