-- ===== src/Desktop.antt =====
-- haven/gui.py: the parts of the desktop client that are not drawing.
pub mod Routes
pub mod Contacts
pub mod Windows
pub mod Sending
mod Examples
