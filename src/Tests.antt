-- ===== src/Tests.antt =====
-- Tests on concrete inputs, and an example of each theorem that has hypotheses.
pub mod Samples
pub mod Documents
pub mod Access
pub mod Rooms
pub mod Members
pub mod Accounts
pub mod Lifecycle
pub mod Pages
pub mod Admin
pub mod Socket
pub mod Guards
pub mod Passwords
pub mod Limits
pub mod Routes
