-- ===== src/Accounts.antt =====
-- webapp/accounts_server.py and webapp/accounts_db.py: the hosted accounts service.
pub mod Names
pub mod Limiter
pub mod Db
pub mod Secrets
pub mod Server
pub mod Search
pub mod Friends
mod Examples
