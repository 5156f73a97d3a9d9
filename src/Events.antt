-- ===== src/Events.antt =====
-- The event buses of infra/events: council_events.py, supreme_assembly_events.py and
-- state_council_events.py, which differ in their events only.
pub mod Defs
mod Delivery
mod Tests
