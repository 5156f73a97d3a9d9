-- ===== src/Permissions.antt =====
-- Who may do what: bot/services/permission_service.py, with the checks of
-- bot/services/state_council_service.py that it asks.
pub mod Defs
mod Rules
mod Tests
