-- ===== src/Install.antt =====
-- The installation of the custom resource definitions, and the migration of the machines.
pub mod Readiness
pub mod Migrations
pub mod Definitions
