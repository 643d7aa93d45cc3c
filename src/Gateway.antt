-- ===== src/Gateway.antt =====
-- The gateway package: backend/app/gateway.
pub mod Framing
pub mod Multiplexer
