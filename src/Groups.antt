-- ===== src/Groups.antt =====
-- haven/groups.py: `GroupManager`.
pub mod State
pub mod Manager
pub mod Inbound
pub mod Messages
pub mod Removal
pub mod Membership
pub mod Stream
pub mod Letters
mod Examples
