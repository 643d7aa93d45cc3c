-- ===== src/Http.antt =====
-- The HTTP interface: backend/app/main.py.
pub mod EventStream
