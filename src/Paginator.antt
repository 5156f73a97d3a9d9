-- ===== src/Paginator.antt =====
-- The paginator of the panels, `class EmbedPaginator` of bot/ui/paginator.py.
pub mod Defs
mod Pages
mod Clicks
mod Tests
