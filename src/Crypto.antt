-- ===== src/Crypto.antt =====
-- haven/crypto.py: keys, fingerprints, the handshake, the ratchets and the ciphers.
pub mod Primitives
pub mod Hex
pub mod Keys
pub mod Handshake
pub mod Ratchet
pub mod Delivery
pub mod AtRest
pub mod Toy
mod Examples
