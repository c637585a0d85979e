-- ===== src/Projects/Routes/Contents.antt =====
-- All of a project but the time of its last activity, under the handlers that a viewer or a commenter
-- may reach (app/modules/projects/router.py).
use prompt_studio_backend.Prelude.{◌≡◌, refl, none, some, List, [], map, ◌==◌, nat_eq}
use prompt_studio_backend.Core.Roles.{ProjectRole, ActivityType, project_role_eq}
use prompt_studio_backend.Projects.Access.{ProjectAccess}
use prompt_studio_backend.Projects.Feed.{add_activity}
use prompt_studio_backend.Projects.Handlers.{leave_project_route}
use prompt_studio_backend.Projects.Members.{evict_open_sockets, finish_leaving, leave_project}
use prompt_studio_backend.Projects.Members.Guards.{assert_another_owner_remains-then}
use prompt_studio_backend.Projects.Routes.View.{add_activity-ViewIs}
use prompt_studio_backend.Store.{User, Project, ProjectMember, ProjectVersion, World}
use prompt_studio_backend.Store.Action.{Result}
use prompt_studio_backend.Store.Frames.{continue-then}
use prompt_studio_backend.Store.Rows.{delete_member}

abbrev pub content : Project → Project
content p = record p { last_activity_at = none }

abbrev pub contents : World → List Project
contents w = map content w.projects

abbrev pub unseen : ProjectMember → Unit {0}
unseen row = tt

module _ (before : List Project) (versions : List ProjectVersion) where
  abbrev pub ContentsAre : World → Type 0
  ContentsAre w = (contents w ≡ before) × (w.versions ≡ versions)

  abbrev pub KeepsContents : {A : Type 0} → Result A × World → Type 0
  KeepsContents (r, w) = (contents w ≡ before) × (w.versions ≡ versions)

  -- Leaving takes a row out of the members.
  pub leave_project_route-KeepsContents :
      (access : ProjectAccess) (user : User) (w : World)
      → ContentsAre w
      → KeepsContents (leave_project_route access user w)
  unfolding leave_project_route leave_project finish_leaving evict_open_sockets
  leave_project_route-KeepsContents access user w are =
      let without = delete_member access.member.id w in
      let noted =
        add_activity-ViewIs content unseen (λ p at. refl) (λ r at. refl) before
          (map unseen without.members) versions access.project (some user)
          ActivityType.member_removed "left the project" [] without (are.0, refl, are.1) in
      continue-then ContentsAre KeepsContents (λ r v p. p) (leave_project access user w) _
        (assert_another_owner_remains-then KeepsContents (access.role == ProjectRole.owner)
          access.project.id access.member.id _ w (λ e. are)
          (λ left.
            continue-then {B = Unit {0}} ContentsAre KeepsContents (λ r v p. p)
              (add_activity access.project (some user) ActivityType.member_removed
                "left the project" [] without)
              _ (noted.0, noted.2) (λ _ w' are'. are')))
        (λ _ w' are'. are')
