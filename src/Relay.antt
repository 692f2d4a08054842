-- ===== src/Relay.antt =====
-- src/relay/client.ts: the client of the LiViS relay.
pub mod TokenRefresh
pub mod Chains
pub mod Delivery
pub mod Acks
mod Examples
