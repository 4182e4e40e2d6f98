-- ===== src/Identity.antt =====
-- haven/identity.py and haven/recovery.py: the identity on the user's own disk.
pub mod Phrase
pub mod Local
pub mod Cards
pub mod Unlock
mod Examples
