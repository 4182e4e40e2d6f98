-- ===== src/Calls.antt =====
-- haven/calls.py: `CallManager`.
pub mod State
pub mod Manager
pub mod Media
pub mod Invariant
mod Examples
