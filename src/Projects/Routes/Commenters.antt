-- ===== src/Projects/Routes/Commenters.antt =====
-- What no one below a commenter changes (app/modules/projects/router.py).
use prompt_studio_backend.Prelude.{ℕ, String, ◌≡◌, refl, List, ◌!=◌, ◌==◌, nat_eq}
use prompt_studio_backend.Core.Errors.{AppError, not_found_error}
use prompt_studio_backend.Core.Roles.{ProjectRole, project_role_eq}
use prompt_studio_backend.Projects.Access.{ProjectAccess}
use prompt_studio_backend.Projects.Access.Decision.{decision, visible_project, membership_row}
use prompt_studio_backend.Projects.Documents.{get_version_of}
use prompt_studio_backend.Projects.Feed.{add_activity}
use prompt_studio_backend.Projects.Handlers.{
  Response, read_project_route, leave_project_route, read_presence_route, list_versions_route,
  list_activity_route, read_version_route, list_comments_route, list_members_route,
}
use prompt_studio_backend.Projects.Members.{
  evict_open_sockets, finish_leaving, leave_project, mark_opened,
}
use prompt_studio_backend.Projects.Members.Guards.{assert_another_owner_remains-then}
use prompt_studio_backend.Projects.Routes.{Call, minimum_of, perform, route}
use prompt_studio_backend.Projects.Routes.Answered.{closed-keeps, open-keeps}
use prompt_studio_backend.Projects.Routes.Refused.{refused_owner, refused_editor}
use prompt_studio_backend.Store.{User, ProjectMember, World}
use prompt_studio_backend.Store.Action.{Result, or_raise, raise_if, err}
use prompt_studio_backend.Store.Frames.{continue-then, or_raise-holds}
use prompt_studio_backend.Store.Rows.{get_version}
use prompt_studio_backend.Core.ErrorMessage

abbrev pub SameComments : World → World → Type 0
SameComments w w' = w'.comments ≡ w.comments

module _ (w : World) (access : ProjectAccess) (user : User) where
  leave_project_route-SameComments :
      (v : World) → SameComments w v → SameComments w (leave_project_route access user v).1
  unfolding leave_project_route leave_project finish_leaving evict_open_sockets add_activity
  leave_project_route-SameComments v are =
      continue-then (SameComments w) (λ r. SameComments w r.1) (λ r u q. q)
        (leave_project access user v) _
        (assert_another_owner_remains-then (λ r. SameComments w r.1)
          (access.role == ProjectRole.owner) access.project.id access.member.id _ v (λ e. are)
          (λ left. are))
        (λ _ u q. q)

  read_version_route-SameComments :
      (vid : ℕ) (v : World)
      → SameComments w v
      → SameComments w (read_version_route vid access user v).1
  unfolding read_version_route get_version_of
  read_version_route-SameComments vid v are =
      let missing = not_found_error ErrorMessage.version_not_found in
      continue-then (SameComments w) (λ r. SameComments w r.1) (λ r u q. q)
        (get_version_of access.project.id vid v) _
        (continue-then (SameComments w) (λ r. SameComments w r.1) (λ r u q. q)
          (or_raise (get_version vid v) missing v) _
          (or_raise-holds (SameComments w) (get_version vid v) missing v are)
          λ version u q.
            continue-then (SameComments w) (λ r. SameComments w r.1) (λ r x y. y)
              (raise_if (version.project_id != access.project.id) missing u) _ q (λ _ x y. y))
        (λ _ u q. q)

module _ (create_invite_token : ℕ → String → String) (token_urlsafe : String)
    (strftime : ℕ → String) (order_members : List ProjectMember → List ProjectMember) (pid : ℕ)
    (user : User) where
  abbrev answered : Call → World → Result Response × World
  answered call w = route create_invite_token token_urlsafe strftime order_members pid call user w

  closed-SameComments :
      (call : Call) (w : World) {e : AppError}
      → decision (visible_project pid w) (membership_row pid user w) (minimum_of call) ≡ err e
      → SameComments w (answered call w).1
  closed-SameComments call w closed =
      closed-keeps create_invite_token token_urlsafe strftime order_members pid user
        (SameComments w) (λ u row v are. are) call w closed refl

  open-SameComments :
      (call : Call) (w : World)
      → ((access : ProjectAccess) (v : World)
          → SameComments w v
          → SameComments w
              (perform create_invite_token token_urlsafe strftime order_members call access user
                v).1)
      → SameComments w (answered call w).1
  open-SameComments call w keeps =
      open-keeps create_invite_token token_urlsafe strftime order_members pid user (SameComments w)
        (λ u row v are. are) call w keeps refl

  pub refused_commenter-SameComments :
      (call : Call) (w : World) {e : AppError}
      → decision (visible_project pid w) (membership_row pid user w) ProjectRole.commenter ≡ err e
      → SameComments w (answered call w).1
  unfolding minimum_of perform list_members_route read_presence_route list_versions_route
      list_activity_route list_comments_route read_project_route mark_opened
  refused_commenter-SameComments Call.read_project w low =
      open-SameComments Call.read_project w (λ access v are. are)
  refused_commenter-SameComments (Call.update_project change) w low =
      closed-SameComments (Call.update_project change) w
        (refused_editor (visible_project pid w) (membership_row pid user w) low).1
  refused_commenter-SameComments (Call.save_document body) w low =
      closed-SameComments (Call.save_document body) w
        (refused_editor (visible_project pid w) (membership_row pid user w) low).1
  refused_commenter-SameComments Call.remove_project w low =
      closed-SameComments Call.remove_project w
        (refused_owner (visible_project pid w) (membership_row pid user w)
          (refused_editor (visible_project pid w) (membership_row pid user w) low).1).1
  refused_commenter-SameComments Call.read_members w low =
      open-SameComments Call.read_members w (λ access v are. are)
  refused_commenter-SameComments (Call.add_member email role) w low =
      closed-SameComments (Call.add_member email role) w
        (refused_owner (visible_project pid w) (membership_row pid user w)
          (refused_editor (visible_project pid w) (membership_row pid user w) low).1).1
  refused_commenter-SameComments (Call.add_members emails role) w low =
      closed-SameComments (Call.add_members emails role) w
        (refused_owner (visible_project pid w) (membership_row pid user w)
          (refused_editor (visible_project pid w) (membership_row pid user w) low).1).1
  refused_commenter-SameComments (Call.update_member mid role) w low =
      closed-SameComments (Call.update_member mid role) w
        (refused_owner (visible_project pid w) (membership_row pid user w)
          (refused_editor (visible_project pid w) (membership_row pid user w) low).1).1
  refused_commenter-SameComments (Call.remove_member_of mid) w low =
      closed-SameComments (Call.remove_member_of mid) w
        (refused_owner (visible_project pid w) (membership_row pid user w)
          (refused_editor (visible_project pid w) (membership_row pid user w) low).1).1
  refused_commenter-SameComments Call.leave w low =
      open-SameComments Call.leave w
        (λ access v are. leave_project_route-SameComments w access user v are)
  refused_commenter-SameComments Call.read_presence w low =
      open-SameComments Call.read_presence w (λ access v are. are)
  refused_commenter-SameComments (Call.read_versions params) w low =
      open-SameComments (Call.read_versions params) w (λ access v are. are)
  refused_commenter-SameComments (Call.read_activity params) w low =
      open-SameComments (Call.read_activity params) w (λ access v are. are)
  refused_commenter-SameComments (Call.keep_version label) w low =
      closed-SameComments (Call.keep_version label) w
        (refused_editor (visible_project pid w) (membership_row pid user w) low).1
  refused_commenter-SameComments (Call.read_version vid) w low =
      open-SameComments (Call.read_version vid) w
        (λ access v are. read_version_route-SameComments w access user vid v are)
  refused_commenter-SameComments (Call.restore_version_of vid) w low =
      closed-SameComments (Call.restore_version_of vid) w
        (refused_editor (visible_project pid w) (membership_row pid user w) low).1
  refused_commenter-SameComments (Call.read_comments include_resolved) w low =
      open-SameComments (Call.read_comments include_resolved) w (λ access v are. are)
  refused_commenter-SameComments (Call.post_comment body) w low =
      closed-SameComments (Call.post_comment body) w low
  refused_commenter-SameComments (Call.change_comment cid change) w low =
      closed-SameComments (Call.change_comment cid change) w low
  refused_commenter-SameComments (Call.remove_comment cid) w low =
      closed-SameComments (Call.remove_comment cid) w low
  refused_commenter-SameComments Call.read_public_link w low =
      closed-SameComments Call.read_public_link w
        (refused_owner (visible_project pid w) (membership_row pid user w)
          (refused_editor (visible_project pid w) (membership_row pid user w) low).1).1
  refused_commenter-SameComments Call.turn_on_link w low =
      closed-SameComments Call.turn_on_link w
        (refused_owner (visible_project pid w) (membership_row pid user w)
          (refused_editor (visible_project pid w) (membership_row pid user w) low).1).1
  refused_commenter-SameComments Call.replace_link w low =
      closed-SameComments Call.replace_link w
        (refused_owner (visible_project pid w) (membership_row pid user w)
          (refused_editor (visible_project pid w) (membership_row pid user w) low).1).1
  refused_commenter-SameComments Call.turn_off_link w low =
      closed-SameComments Call.turn_off_link w
        (refused_owner (visible_project pid w) (membership_row pid user w)
          (refused_editor (visible_project pid w) (membership_row pid user w) low).1).1
