-- ===== src/Metrics.antt =====
-- The metrics package: backend/app/metrics.
pub mod Events
pub mod Packet
pub mod Calculations
