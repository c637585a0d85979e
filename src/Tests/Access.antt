-- ===== src/Tests/Access.antt =====
-- Who may open the sample project.
use prompt_studio_backend.Prelude.{◌≡◌, refl, ◌≢◌, true, some, first_where}
use prompt_studio_backend.Core.Roles.{GlobalRole, ProjectRole, MemberStatus, at_least}
use prompt_studio_backend.Projects.Access.{membership_match, resolve_access}
use prompt_studio_backend.Projects.Access.Decision.{
  decision, granted_role, visible_project, membership_row, resolve_access_decides,
  platform_role_opens_nothing, unconfirmed_needs_own_row,
}
use prompt_studio_backend.Store.{ProjectMember}
use prompt_studio_backend.Store.Action.{ok}
use prompt_studio_backend.Tests.Samples.{owner, editor, newcomer, some_world}

resolve_access_decides_example :
    granted_role (resolve_access 10 editor ProjectRole.owner some_world).0
    ≡ decision
        (visible_project 10 some_world)
        (membership_row 10 editor some_world)
        ProjectRole.owner
resolve_access_decides_example = resolve_access_decides 10 editor ProjectRole.owner some_world

chief_role_opens_nothing :
    granted_role
      (resolve_access 10
        (record owner { role = GlobalRole.superadmin; is_superuser = true })
        ProjectRole.viewer
        some_world).0
    ≡ granted_role (resolve_access 10 owner ProjectRole.viewer some_world).0
chief_role_opens_nothing =
    platform_role_opens_nothing 10 owner GlobalRole.superadmin true ProjectRole.viewer some_world

newcomer_opens :
    granted_role (resolve_access 10 newcomer ProjectRole.viewer some_world).0
    ≡ ok ProjectRole.viewer
unfolding first_where membership_match at_least
newcomer_opens = resolve_access_decides 10 newcomer ProjectRole.viewer some_world

unconfirmed_needs_own_row_example :
    (row : ProjectMember) × (membership_row 10 newcomer some_world ≡ some row)
    × (row.user_id ≡ some 3)
    × (row.project_id ≡ 10)
    × (row.status ≢ MemberStatus.revoked)
    × (row.role ≡ ProjectRole.viewer)
unfolding first_where membership_match
unconfirmed_needs_own_row_example =
    unconfirmed_needs_own_row 10 newcomer ProjectRole.viewer some_world refl newcomer_opens
