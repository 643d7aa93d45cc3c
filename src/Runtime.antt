-- ===== src/Runtime.antt =====
-- The firmware's processes: backend/app/runtime.
pub mod LogFile
pub mod Processes
