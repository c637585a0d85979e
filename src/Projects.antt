-- ===== src/Projects.antt =====
-- app/modules/projects: who may open a project, its document and history, its members, its public
-- link and its comments.
pub mod Feed
pub mod Access
pub mod Documents
pub mod Schemas
pub mod Members
pub mod Links
pub mod Comments
pub mod Lifecycle
pub mod Serializers
pub mod Listing
pub mod Handlers
pub mod Routes
