-- ===== src/Projects/Members/Reach.antt =====
-- The runs of membership operations, as a step relation (app/modules/projects/service.py).
use prompt_studio_backend.Prelude.{ℕ, String, ◌≡◌, some}
use prompt_studio_backend.Core.Roles.{ProjectRole}
use prompt_studio_backend.Projects.Access.{ProjectAccess}
use prompt_studio_backend.Projects.Members.{
  invite_member, update_member_role, remove_member, leave_project, claim_invites, mark_opened,
}
use prompt_studio_backend.Projects.Members.Claims.{
  KeepsOwners-trans, mark_opened-KeepsOwners, claim_invites-KeepsOwners,
}
use prompt_studio_backend.Projects.Members.Invites.{invite_member-KeepsOwners}
use prompt_studio_backend.Projects.Members.Owners.{KeepsOwners}
use prompt_studio_backend.Projects.Members.Sound.{IsSound}
use prompt_studio_backend.Projects.Members.Steps.{
  refused-KeepsOwners, remove_member-KeepsOwners, update_member_role-KeepsOwners,
  leave_project-KeepsOwners,
}
use prompt_studio_backend.Store.{User, Project, World}
use prompt_studio_backend.Store.Rows.{get_member}

-- One call of a membership operation. Who leaves does so by a row of the project, with its role.
pub data MemberStep : World → World → Type 0 where
  invites :
      (create_invite_token : ℕ → String → String) (project : Project) (actor : User)
      (email : String) (role : ProjectRole) (w : World)
      → MemberStep w (invite_member create_invite_token project actor email role w).1
  changes_role :
      (project : Project) (actor : User) (member_id : ℕ) (role : ProjectRole) (w : World)
      → MemberStep w (update_member_role project actor member_id role w).1
  removes :
      (project : Project) (actor : User) (member_id : ℕ) (w : World)
      → MemberStep w (remove_member project actor member_id w).1
  leaves :
      (access : ProjectAccess) (user : User) (w : World)
      → get_member access.member.id w ≡ some access.member
      → access.member.project_id ≡ access.project.id
      → access.role ≡ access.member.role
      → MemberStep w (leave_project access user w).1
  claims : (user : User) (w : World) → MemberStep w (claim_invites user w).1
  opens : (access : ProjectAccess) (w : World) → MemberStep w (mark_opened access w).1

pub data MemberSteps : World → World → Type 0 where
  done : (w : World) → MemberSteps w w
  step : (w w' w'' : World) → MemberStep w w' → MemberSteps w' w'' → MemberSteps w w''

MemberStep-KeepsOwners : (w w' : World) → MemberStep w w' → IsSound w → KeepsOwners w w'
MemberStep-KeepsOwners w _ (invites token project actor email role _) sound =
    invite_member-KeepsOwners token project actor email role w sound
MemberStep-KeepsOwners w _ (changes_role project actor member_id role _) sound =
    update_member_role-KeepsOwners project actor member_id role w sound
MemberStep-KeepsOwners w _ (removes project actor member_id _) sound =
    remove_member-KeepsOwners project actor member_id w sound
MemberStep-KeepsOwners w _ (leaves access user _ found here standing) sound =
    leave_project-KeepsOwners access user w found here standing sound
MemberStep-KeepsOwners w _ (claims user _) sound = claim_invites-KeepsOwners user w sound
MemberStep-KeepsOwners w _ (opens access _) sound = mark_opened-KeepsOwners access w sound

-- A project that has an owner whose row an account holds still has one after any sequence of
-- invitations, role changes, removals, departures, claims and openings, refused or not, by anyone.
-- The membership rows' ids are unique and below the next one to be drawn, which the same sequence
-- keeps.
pub MemberSteps-KeepsOwners : (w w' : World) → MemberSteps w w' → IsSound w → KeepsOwners w w'
MemberSteps-KeepsOwners w _ (done _) sound = refused-KeepsOwners w sound
MemberSteps-KeepsOwners w w'' (step _ w' _ one rest) sound =
    let first = MemberStep-KeepsOwners w w' one sound in
    KeepsOwners-trans w w' w'' first (MemberSteps-KeepsOwners w' w'' rest first.0)
