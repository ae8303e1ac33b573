-- ===== src/Bridge.antt =====
-- The business side of the gateway bridge: fairyclaw/bridge/user_gateway.py, with the ingress service
-- and the messages of fairyclaw/core/gateway_protocol.
pub mod Recent
pub mod Messages
pub mod Ingress
pub mod Gateway
pub mod Kept
pub mod Once
pub mod Outbox
pub mod Last
pub mod Replay
pub mod Tests
