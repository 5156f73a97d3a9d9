-- ===== src/Container.antt =====
-- The dependency injection container, `class DependencyContainer` of infra/di/container.py.
pub mod Defs
mod Fuel
mod Resolve
mod Singletons
mod Tests
