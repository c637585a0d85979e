-- ===== src/Projects/Access/Decision.antt =====
-- The decision of `resolve_access` (app/modules/projects/access.py), stated of rows.
use prompt_studio_backend.Prelude.{
  ℕ, ◌≡◌, sym, ◌∙◌, ◌≢◌, inl, inr, Bool, not, ◌&&◌, Option, none, some, arith, if◌then◌else◌, ◌==◌,
  nat_eq, Option-cases, first_where, first_where-holds,
}
use prompt_studio_backend.Core.Errors.{not_found_error, authorization_error}
use prompt_studio_backend.Core.Roles.{GlobalRole, ProjectRole, MemberStatus, at_least}
use prompt_studio_backend.Projects.Access.{
  ProjectAccess, membership_match, load_project, is_membership, bind_member, find_membership,
  grant_access, resolve_access,
}
use prompt_studio_backend.Store.{User, Project, ProjectMember, World}
use prompt_studio_backend.Store.Action.{Result, ok, err}
use prompt_studio_backend.Core.ErrorMessage

-- What the three answers are, from the two rows.
abbrev pub decision : Option Project → Option ProjectMember → ProjectRole → Result ProjectRole
decision none row minimum = err (not_found_error ErrorMessage.project_not_found)
decision (some project) none minimum = err (not_found_error ErrorMessage.project_not_found)
decision (some project) (some row) minimum =
    if at_least row.role minimum
    then ok row.role
    else err (authorization_error ErrorMessage.project_role_too_low)

abbrev pub granted_role : Result ProjectAccess → Result ProjectRole
granted_role (ok access) = ok access.role
granted_role (err e) = err e

abbrev pub visible_project : ℕ → World → Option Project
visible_project pid w = first_where (λ p. p.id == pid && not p.is_deleted) w.projects

abbrev pub membership_row : ℕ → User → World → Option ProjectMember
membership_row pid user w = first_where (is_membership pid user) w.members

-- `resolve_access` answers 404 when the project is absent or in the trash, or when no live
-- membership row of the project is the caller's; 403 when the row's role ranks below the minimum;
-- and otherwise grants exactly the row's role.
pub resolve_access_decides :
    (pid : ℕ) (user : User) (minimum : ProjectRole) (w : World)
    → granted_role (resolve_access pid user minimum w).0
      ≡ decision (visible_project pid w) (membership_row pid user w) minimum
unfolding resolve_access load_project find_membership bind_member grant_access
resolve_access_decides pid user minimum w = ground arith

-- Neither the platform role nor the break-glass flag opens a project: whatever they are, the answer
-- is the same.
pub platform_role_opens_nothing :
    (pid : ℕ) (user : User) (role : GlobalRole) (superuser : Bool) (minimum : ProjectRole)
    (w : World)
    → granted_role
        (resolve_access pid (record user { role = role; is_superuser = superuser }) minimum w).0
      ≡ granted_role (resolve_access pid user minimum w).0
unfolding membership_match
platform_role_opens_nothing pid user role superuser minimum w =
    resolve_access_decides pid (record user { role = role; is_superuser = superuser }) minimum w
    ∙ sym (resolve_access_decides pid user minimum w)

-- An account that has not confirmed its address is let in only by a row that carries its id: a row
-- that matches the address alone opens nothing.
pub unconfirmed_needs_own_row :
    (pid : ℕ) (user : User) (minimum : ProjectRole) (w : World) {role : ProjectRole}
    → user.email_verified_at ≡ none
    → granted_role (resolve_access pid user minimum w).0 ≡ ok role
    → (row : ProjectMember) × (membership_row pid user w ≡ some row)
      × (row.user_id ≡ some user.id)
      × (row.project_id ≡ pid)
      × (row.status ≢ MemberStatus.revoked)
      × (row.role ≡ role)
unfolding membership_match
unconfirmed_needs_own_row pid user minimum w {role} unproved e =
    elim (Option-cases (membership_row pid user w)) [
      | inl absent ↦ absurd (ground (arith, resolve_access_decides pid user minimum w))
      | inr (row, found) ↦
          let mine = first_where-holds (is_membership pid user) w.members found in
          (
            row,
            found,
            ground arith,
            ground arith,
            ground arith,
            ground (arith, resolve_access_decides pid user minimum w),
          )
    ]
