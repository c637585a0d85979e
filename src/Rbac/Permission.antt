-- ===== src/Rbac/Permission.antt =====
-- app/modules/rbac/permissions.py: the codes of `Permission`.
use prompt_studio_backend.Prelude.{String}

abbrev pub users_read : String
users_read = "users.read"

abbrev pub users_create : String
users_create = "users.create"

abbrev pub users_update : String
users_update = "users.update"

abbrev pub users_delete : String
users_delete = "users.delete"

abbrev pub users_impersonate_role : String
users_impersonate_role = "users.set_role"

abbrev pub projects_read_all : String
projects_read_all = "projects.read_all"

abbrev pub projects_delete_any : String
projects_delete_any = "projects.delete_any"

abbrev pub audit_read : String
audit_read = "audit.read"

abbrev pub stats_read : String
stats_read = "stats.read"
