-- ===== src/Traffic.antt =====
-- The traffic package: backend/app/traffic/controller.py.
pub mod Model
pub mod Controller
pub mod Schedule
pub mod Timetable
pub mod Generator
pub mod Identifiers
pub mod Drain
pub mod Results
pub mod Sampling
pub mod Runner
pub mod Init
