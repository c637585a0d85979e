-- ===== src/Projects/Listing.antt =====
-- app/modules/projects/service.py: the lists that a member reads. How the database orders projects
-- and matches a pattern is a parameter.
pub mod Visible
use mathlib.Core.Option
use prompt_studio_backend.Prelude.{
  ℕ, String, Bool, true, not, ◌&&◌, ◌||◌, Option, none, some, List, [], ◌∷◌, map, if◌then◌else◌,
  ◌!=◌, ◌==◌, nat_eq, string_eq, holds, select_where, any_where, order_by_desc,
}
use prompt_studio_backend.Core.Pagination.{PageParams, paginate}
use prompt_studio_backend.Core.Roles.{ProjectRole, MemberStatus, member_status_eq}
use prompt_studio_backend.Core.Text.{strip, lower, format}
use prompt_studio_backend.Projects.Access.{is_membership}
use prompt_studio_backend.Store.{
  User, Project, ProjectMember, ProjectVersion, ProjectActivity, World,
}
use prompt_studio_backend.Store.Rows.{get_user}

-- The rows that `_visible_projects_query` joins a project to.
abbrev pub is_joined : User → List ProjectMember → Project → Bool
is_joined user members p = any_where (is_membership p.id user) members

-- `_visible_projects_query`: each project once
unfoldable pub visible_projects : User → World → List Project
visible_projects user w =
    select_where (λ p. not p.is_deleted && is_joined user w.members p) w.projects

-- The filters of `list_projects`.
abbrev pub is_archived_as : Option Bool → Project → Bool
is_archived_as none p = true
is_archived_as (some archived) p = if archived then p.is_archived else not p.is_archived

abbrev pub is_owned : Bool → User → Project → Bool
is_owned owned_only user p = not owned_only || holds p.owner_id user.id

-- `if search:`, then the pattern on the name or the description
abbrev pub is_found : (String → String → Bool) → Option String → Project → Bool
is_found ilike none p = true
is_found ilike (some search) p =
    search == ""
    || ilike (format ("%" ∷ lower (strip search) ∷ "%" ∷ [])) p.name
    || ilike (format ("%" ∷ lower (strip search) ∷ "%" ∷ [])) p.description

module _ (ilike : String → String → Bool) (order_by : String → List Project → List Project) where
  unfoldable pub list_projects :
      User → PageParams → Option String → Option Bool → Bool → String → World → List Project × ℕ
  list_projects user params search archived owned_only sort w =
      paginate
        (order_by sort (
          select_where
            (λ p.
              is_archived_as archived p && is_owned owned_only user p && is_found ilike search p)
            (visible_projects user w)))
        params

-- `role_map`: the rows, which a dict keeps the last of for each project
abbrev pub roles_on : User → List ℕ → World → List (ℕ × ProjectRole)
roles_on user pids w =
    map (λ row. (row.project_id, row.role))
      (select_where
        (λ (row : ProjectMember).
          any_where (λ pid. pid == row.project_id) pids && is_membership row.project_id user row)
        w.members)

abbrev pub role_in : List (ℕ × ProjectRole) → ℕ → Option ProjectRole → Option ProjectRole
role_in [] pid known = known
role_in ((key, role) ∷ roles) pid known =
    let later = role_in roles pid (some role) in
    let other = role_in roles pid known in if key == pid then later else other

unfoldable pub role_map : User → List ℕ → World → ℕ → Option ProjectRole
role_map user pids w pid = role_in (roles_on user pids w) pid none

-- `list_members`: an outer join, since a pending invitation has no account behind it. The order, by
-- role and address, is the database's.
module _ (order_members : List ProjectMember → List ProjectMember) where
  unfoldable pub list_members : ℕ → World → List (ProjectMember × Option User)
  list_members pid w =
      map (λ row. (row, Option.bind row.user_id (λ uid. get_user uid w)))
        (order_members (
          select_where (λ row. row.project_id == pid && row.status != MemberStatus.revoked)
            w.members))

unfoldable pub list_versions : ℕ → PageParams → World → List ProjectVersion × ℕ
list_versions pid params w =
    paginate
      (order_by_desc (λ (v : ProjectVersion). v.created_at)
        (select_where (λ v. v.project_id == pid) w.versions))
      params

unfoldable pub list_activity : ℕ → PageParams → World → List ProjectActivity × ℕ
list_activity pid params w =
    paginate
      (order_by_desc (λ (a : ProjectActivity). a.created_at)
        (select_where (λ a. a.project_id == pid) w.activities))
      params
