-- ===== src/Projects/Access.antt =====
-- app/modules/projects/access.py, and `_membership_match` of app/modules/projects/service.py: who
-- may open a project, and with what standing.
pub mod Decision
pub mod Frame
use prompt_studio_backend.Prelude.{
  ℕ, Bool, not, ◌&&◌, ◌||◌, Option, none, some, if◌then◌else◌, ◌!=◌, ◌==◌, nat_eq, string_eq, holds,
  is_none, or_else, first_where,
}
use prompt_studio_backend.Core.Errors.{not_found_error, authorization_error}
use prompt_studio_backend.Core.Roles.{
  ProjectRole, MemberStatus, at_least, project_role_eq, member_status_eq,
}
use prompt_studio_backend.Store.{User, Project, ProjectMember}
use prompt_studio_backend.Store.Action.{
  Action, pure, gets, or_raise, ◌>>=◌, ◌>>◌, modify, raise_if, when, commit,
}
use prompt_studio_backend.Store.Rows.{update_member}
use prompt_studio_backend.Core.ErrorMessage

-- A resolved answer to "may this person do this, here?"
pub record ProjectAccess : Type 0 where
  pub project : Project
  pub member : ProjectMember
  pub role : ProjectRole

pub can_edit : ProjectAccess → Bool
can_edit access = at_least access.role ProjectRole.editor

unfoldable pub is_owner : ProjectAccess → Bool
is_owner access = access.role == ProjectRole.owner

-- Which membership rows belong to this account: the email half counts once it is confirmed.
unfoldable pub membership_match : User → ProjectMember → Bool
membership_match user row =
    if is_none user.email_verified_at
    then holds row.user_id user.id
    else holds row.user_id user.id || row.email == user.email

unfoldable pub load_project : ℕ → Action Project
load_project pid = do
  found ← gets (λ w. first_where (λ p. p.id == pid && not p.is_deleted) w.projects)
  or_raise found (not_found_error ErrorMessage.project_not_found)

-- The row that `find_membership` selects.
abbrev pub is_membership : ℕ → User → ProjectMember → Bool
is_membership pid user row =
    row.project_id == pid && row.status != MemberStatus.revoked && membership_match user row

-- A row matched by its address alone is bound to the account that it let in.
abbrev pub bound : User → ℕ → ProjectMember → ProjectMember
bound user now row = record row {
  user_id = some user.id;
  status = MemberStatus.active;
  joined_at = some (or_else row.joined_at now);
}

unfoldable pub bind_member : User → Option ProjectMember → Action (Option ProjectMember)
bind_member user none = pure none
bind_member user (some row) = do
  now ← gets (λ w. w.now)
  when (is_none row.user_id) (do modify (update_member row.id (bound user now)); commit)
  pure (some (if is_none row.user_id then bound user now row else row))

unfoldable pub find_membership : ℕ → User → Action (Option ProjectMember)
find_membership pid user = do
  found ← gets (λ w. first_where (is_membership pid user) w.members)
  bind_member user found

pub grant_access : Project → ProjectRole → ProjectMember → Action ProjectAccess
grant_access project minimum row = do
  raise_if (not (at_least row.role minimum)) (authorization_error ErrorMessage.project_role_too_low)
  pure (record { project = project; member = row; role = row.role })

unfoldable pub resolve_access : ℕ → User → ProjectRole → Action ProjectAccess
resolve_access pid user minimum = do
  project ← load_project pid
  found ← find_membership pid user
  row ← or_raise found (not_found_error ErrorMessage.project_not_found)
  grant_access project minimum row
