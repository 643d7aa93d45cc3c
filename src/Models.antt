-- ===== src/Models.antt =====
-- The models package: backend/app/models.
pub mod Scenario
