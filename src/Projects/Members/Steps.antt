-- ===== src/Projects/Members/Steps.antt =====
-- Each membership operation, and any sequence of them, under the invariant on owners
-- (app/modules/projects/service.py).
use mathlib.Core.Path.{subst}
use prompt_studio_backend.Prelude.{
  ℕ, ◌≤◌, ◌≡◌, sym, ap, ◌∙◌, ◌&&◌, some, arith, ◌!=◌, ◌==◌, nat_eq, holds, count_where,
}
use prompt_studio_backend.Core.Roles.{ProjectRole, project_role_number_iff, project_role_eq}
use prompt_studio_backend.Projects.Access.{ProjectAccess}
use prompt_studio_backend.Projects.Members.{
  is_another_owner, with_role, finish_role, update_member_role, finish_removal, remove_member,
  finish_leaving, leave_project,
}
use prompt_studio_backend.Projects.Members.Guards.{
  member_of-then, assert_another_owner_remains-then,
}
use prompt_studio_backend.Projects.Members.Owners.{
  KeepsOwners, KeepsOwners-beside, KeepsOwners-delete_member, KeepsOwners-with_role,
  finish_removal-IsBeside, finish_role-IsBeside, finish_leaving-IsBeside,
}
use prompt_studio_backend.Projects.Members.Sound.{IsSound}
use prompt_studio_backend.Store.{User, Project, World}
use prompt_studio_backend.Store.Action.{Result, raise_if-then}
use prompt_studio_backend.Store.Rows.{get_member, update_member, delete_member}

-- A refusal changes nothing.
pub refused-KeepsOwners : (w : World) → IsSound w → KeepsOwners w w
refused-KeepsOwners w sound = (sound, λ pid h. h)

abbrev pub Kept : {A : Type 0} → World → Result A × World → Type 0
Kept w r = KeepsOwners w r.1

pub remove_member-KeepsOwners :
    (project : Project) (actor : User) (member_id : ℕ) (w : World)
    → IsSound w
    → KeepsOwners w (remove_member project actor member_id w).1
unfolding remove_member
remove_member-KeepsOwners project actor member_id w sound =
    member_of-then (Kept w) project.id member_id _ w (λ e. refused-KeepsOwners w sound)
      λ row there found here.
        assert_another_owner_remains-then (Kept w) (row.role == ProjectRole.owner) project.id row.id
          _ w (λ e. refused-KeepsOwners w sound)
          λ enough.
            KeepsOwners-beside w (delete_member row.id w)
              (finish_removal project actor row (delete_member row.id w)).1
              (finish_removal-IsBeside project actor row (delete_member row.id w))
              (KeepsOwners-delete_member row.id w found
                (λ o.
                  subst (λ pid. 1 ≤ count_where (is_another_owner pid row.id) w.members) (sym here)
                    (enough (ap (λ r. r == ProjectRole.owner) o)))
                sound)

pub update_member_role-KeepsOwners :
    (project : Project) (actor : User) (member_id : ℕ) (role : ProjectRole) (w : World)
    → IsSound w
    → KeepsOwners w (update_member_role project actor member_id role w).1
unfolding update_member_role
update_member_role-KeepsOwners project actor member_id role w sound =
    member_of-then (Kept w) project.id member_id _ w (λ e. refused-KeepsOwners w sound)
      λ row there found here.
        raise_if-then (Kept w) (holds row.user_id actor.id) _ _ w (refused-KeepsOwners w sound) λ _.
          assert_another_owner_remains-then (Kept w)
            (row.role == ProjectRole.owner && role != ProjectRole.owner) project.id row.id _ w
            (λ e. refused-KeepsOwners w sound)
            λ enough.
              KeepsOwners-beside w (update_member row.id (with_role role) w)
                (finish_role project actor row role (update_member row.id (with_role role) w)).1
                (finish_role-IsBeside project actor row role
                  (update_member row.id (with_role role) w))
                (KeepsOwners-with_role row.id role w found
                  (λ o n.
                    subst (λ pid. 1 ≤ count_where (is_another_owner pid row.id) w.members)
                      (sym here)
                      (enough (ground (arith, project_role_number_iff role ProjectRole.owner))))
                  sound)

pub leave_project-KeepsOwners :
    (access : ProjectAccess) (user : User) (w : World)
    → get_member access.member.id w ≡ some access.member
    → access.member.project_id ≡ access.project.id
    → access.role ≡ access.member.role
    → IsSound w
    → KeepsOwners w (leave_project access user w).1
unfolding leave_project
leave_project-KeepsOwners access user w found here standing sound =
    assert_another_owner_remains-then (Kept w) (access.role == ProjectRole.owner) access.project.id
      access.member.id _ w (λ e. refused-KeepsOwners w sound)
      λ enough.
        KeepsOwners-beside w (delete_member access.member.id w)
          (finish_leaving access.project user (delete_member access.member.id w)).1
          (finish_leaving-IsBeside access.project user (delete_member access.member.id w))
          (KeepsOwners-delete_member access.member.id w found
            (λ o.
              subst (λ pid. 1 ≤ count_where (is_another_owner pid access.member.id) w.members)
                (sym here) (enough (ap (λ r. r == ProjectRole.owner) (standing ∙ o))))
            sound)
