-- ===== src/Crypto/Handshake.antt =====
-- The handshake of haven/crypto.py: key pairs, the proof of possession, the 3-DH root key, the chain
-- keys of the two directions and the safety number.
mod Agreement
mod SafetyNumber
pub use Agreement.*
pub use SafetyNumber.*
