-- ===== src/Relay.antt =====
-- haven/relay_server.py: the store-and-forward relay.
pub mod State
pub mod Handshake
pub mod Server
pub mod WebSocket
mod Examples
