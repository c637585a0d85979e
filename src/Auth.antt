-- ===== src/Auth.antt =====
-- Accounts: signing in, and the sessions that come of it.
pub mod Tokens
pub mod Sessions
pub mod Login
pub mod Logout
pub mod Guards
pub mod Register
pub mod Passwords
pub mod Routes
