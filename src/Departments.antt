-- ===== src/Departments.antt =====
-- The registry of departments (bot/services/department_registry.py) and the account numbers of the
-- government.
pub mod Defs
pub mod Accounts
mod Lookups
mod Order
mod Tests
