-- ===== src/Pool.antt =====
-- The coordinator of pending transfers, `class TransferEventPoolCoordinator` of
-- bot/services/transfer_event_pool.py.
pub mod Defs
mod Checks
mod Retries
mod Closed
mod Execution
mod Cleanup
mod Tests
