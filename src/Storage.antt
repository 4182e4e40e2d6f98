-- ===== src/Storage.antt =====
-- haven/storage.py: the local database of the desktop client.
pub mod Tables
pub mod Contacts
pub mod Sessions
pub mod History
pub mod GroupRows
pub mod Loading
pub mod Restart
pub mod Addresses
mod Examples
