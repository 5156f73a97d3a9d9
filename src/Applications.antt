-- ===== src/Applications.antt =====
-- Applications for welfare and for business licences: bot/services/application_service.py over
-- db/gateway/government_applications.py and db/gateway/business_license.py.
pub mod Table
pub mod Licenses
pub mod Service
mod Lookup
mod Keys
mod Review
mod Validity
mod Decided
mod Tests
