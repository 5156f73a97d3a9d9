-- ===== src/Companies.antt =====
-- Companies, each of which stands on a business licence: bot/services/company_service.py over
-- db/gateway/company.py, with fn_companies.sql.
pub mod Defs
mod Registry
mod Grants
mod Tests
