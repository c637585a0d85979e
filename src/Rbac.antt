-- ===== src/Rbac.antt =====
-- app/modules/rbac/permissions.py: what each platform role may do, as a table.
pub mod Permission
pub mod Grants
use prompt_studio_backend.Prelude.{
  String, Bool, List, [], ◌∷◌, ◌++◌, if◌then◌else◌, ◌==◌, string_eq, any_where,
}
use prompt_studio_backend.Core.Roles.{GlobalRole}
use prompt_studio_backend.Rbac.Permission

abbrev pub admin_permissions : List String
admin_permissions =
    Permission.users_read ∷ Permission.users_create ∷ Permission.users_update
    ∷ Permission.projects_read_all ∷ Permission.audit_read ∷ Permission.stats_read ∷ []

-- The half that cannot be undone, and the roles themselves.
abbrev pub irreversible_permissions : List String
irreversible_permissions =
    Permission.users_delete ∷ Permission.users_impersonate_role ∷ Permission.projects_delete_any
    ∷ []

abbrev pub superadmin_permissions : List String
superadmin_permissions = admin_permissions ++ irreversible_permissions

abbrev pub role_permissions : GlobalRole → List String
role_permissions GlobalRole.member = []
role_permissions GlobalRole.admin = admin_permissions
role_permissions GlobalRole.superadmin = superadmin_permissions

-- The break-glass flag grants all of it.
abbrev pub permissions_for : GlobalRole → Bool → List String
permissions_for role is_superuser =
    if is_superuser then superadmin_permissions else role_permissions role

unfoldable pub role_has : GlobalRole → String → Bool → Bool
role_has role code is_superuser = any_where (λ p. p == code) (permissions_for role is_superuser)
