-- ===== src/Simulator.antt =====
-- The simulator: backend/app/simulator/.
pub mod Medium
pub mod Service
