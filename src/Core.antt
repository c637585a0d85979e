-- ===== src/Core.antt =====
-- app/core: roles and statuses, application errors and their messages, documents as JSON values.
pub mod Roles
pub mod Errors
pub mod ErrorMessage
pub mod Json
pub mod Text
pub mod Pagination
pub mod Passwords
pub mod RateLimit
