-- ===== src/Gateway.antt =====
-- The gateways (internal/gateway).
pub mod Cooldown
pub mod SecretIndex
pub mod Watcher
pub mod Messages
mod Tests
