-- ===== src/History.antt =====
-- The history of a member's transactions: get_history of bot/services/balance_service.py.
pub mod Defs
mod Order
mod Pages
mod Tests
