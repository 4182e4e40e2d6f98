-- ===== src/Network.antt =====
-- haven/network.py: framing, sessions over a relay and over direct sockets, and messages.
pub mod Framing
pub mod State
pub mod Messages
pub mod Relayed
pub mod Direct
pub mod Waiting
pub mod Invariant
pub mod RelayClient
mod Examples
mod Meetings
mod Peers
