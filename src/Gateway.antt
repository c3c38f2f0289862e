-- ===== src/Gateway.antt =====
-- The OCPP gateway: backend/gateway.
pub mod Profiles
pub mod Router
pub mod Timestamps
pub mod V16
pub mod V201
pub mod Server
pub mod Watchdog
pub mod Commands
