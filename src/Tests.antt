-- ===== src/Tests.antt =====
-- Runs of the models on small inputs, and concrete cases of the theorems.
mod Framing
mod Gateways
mod Events
mod Scenarios
mod Medium
mod Traffic
mod Runs
mod Service
mod Generator
mod Http
mod Processes
