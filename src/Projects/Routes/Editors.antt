-- ===== src/Projects/Routes/Editors.antt =====
-- What no one below an editor changes (app/modules/projects/router.py).
use prompt_studio_backend.Prelude.{
  ℕ, String, ◌≡◌, refl, ◌∙◌, List, map, ◌==◌, nat_eq, map-update_kept,
}
use prompt_studio_backend.Core.Errors.{AppError}
use prompt_studio_backend.Core.Roles.{ProjectRole}
use prompt_studio_backend.Projects.Access.{ProjectAccess, bound}
use prompt_studio_backend.Projects.Access.Decision.{decision, visible_project, membership_row}
use prompt_studio_backend.Projects.Handlers.{
  Response, read_presence_route, list_versions_route, list_activity_route, list_comments_route,
  list_members_route,
}
use prompt_studio_backend.Projects.Routes.{Call, minimum_of, perform, route}
use prompt_studio_backend.Projects.Routes.Answered.{closed-keeps, open-keeps}
use prompt_studio_backend.Projects.Routes.Contents.{
  content, contents, unseen, ContentsAre, leave_project_route-KeepsContents,
}
use prompt_studio_backend.Projects.Routes.Refused.{refused_owner}
use prompt_studio_backend.Projects.Routes.View.{
  ViewIs, read_project_route-KeepsView, read_version_route-KeepsView, add_comment_route-KeepsView,
  update_comment_route-KeepsView, delete_comment_route-KeepsView,
}
use prompt_studio_backend.Store.{User, ProjectMember, World}
use prompt_studio_backend.Store.Action.{Result, err}

abbrev pub SameContents : World → World → Type 0
SameContents w w' = (contents w' ≡ contents w) × (w'.versions ≡ w.versions)

module _ (create_invite_token : ℕ → String → String) (token_urlsafe : String)
    (strftime : ℕ → String) (order_members : List ProjectMember → List ProjectMember) (pid : ℕ)
    (user : User) where
  abbrev answered : Call → World → Result Response × World
  answered call w = route create_invite_token token_urlsafe strftime order_members pid call user w

  open-SameContents :
      (call : Call) (w : World)
      → ((access : ProjectAccess) (v : World)
          → ViewIs content unseen
              (λ p at. refl)
              (λ r at. refl)
              (contents w)
              (map unseen w.members)
              w.versions
              v
          → ViewIs content unseen
              (λ p at. refl)
              (λ r at. refl)
              (contents w)
              (map unseen w.members)
              w.versions
              (perform create_invite_token token_urlsafe strftime order_members call access user
                v).1)
      → SameContents w (answered call w).1
  open-SameContents call w keeps =
      let kept =
        open-keeps create_invite_token token_urlsafe strftime order_members pid user
          (ViewIs content unseen (λ p at. refl) (λ r at. refl) (contents w) (map unseen w.members)
            w.versions)
          (λ u row v are. (
            are.0,
            map-update_kept unseen (λ r. r.id == row.id) (bound u v.now) v.members (λ r. refl)
                ∙ are.1,
            are.2,
          ))
          call w keeps (refl, refl, refl) in
      (kept.0, kept.2)

  closed-SameContents :
      (call : Call) (w : World) {e : AppError}
      → decision (visible_project pid w) (membership_row pid user w) (minimum_of call) ≡ err e
      → SameContents w (answered call w).1
  closed-SameContents call w closed =
      closed-keeps create_invite_token token_urlsafe strftime order_members pid user
        (ContentsAre (contents w) w.versions) (λ u row v are. are) call w closed (refl, refl)

  pub refused_editor-SameContents :
      (call : Call) (w : World) {e : AppError}
      → decision (visible_project pid w) (membership_row pid user w) ProjectRole.editor ≡ err e
      → SameContents w (answered call w).1
  unfolding minimum_of perform list_members_route read_presence_route list_versions_route
      list_activity_route list_comments_route
  refused_editor-SameContents Call.read_project w low =
      open-SameContents Call.read_project w (λ access v are.
        read_project_route-KeepsView content unseen (λ p at. refl) (λ r at. refl) (contents w)
          (map unseen w.members) w.versions access user v are)
  refused_editor-SameContents (Call.update_project change) w low =
      closed-SameContents (Call.update_project change) w low
  refused_editor-SameContents (Call.save_document body) w low =
      closed-SameContents (Call.save_document body) w low
  refused_editor-SameContents Call.remove_project w low =
      closed-SameContents Call.remove_project w
        (refused_owner (visible_project pid w) (membership_row pid user w) low).1
  refused_editor-SameContents Call.read_members w low =
      open-SameContents Call.read_members w (λ access v are. are)
  refused_editor-SameContents (Call.add_member email role) w low =
      closed-SameContents (Call.add_member email role) w
        (refused_owner (visible_project pid w) (membership_row pid user w) low).1
  refused_editor-SameContents (Call.add_members emails role) w low =
      closed-SameContents (Call.add_members emails role) w
        (refused_owner (visible_project pid w) (membership_row pid user w) low).1
  refused_editor-SameContents (Call.update_member mid role) w low =
      closed-SameContents (Call.update_member mid role) w
        (refused_owner (visible_project pid w) (membership_row pid user w) low).1
  refused_editor-SameContents (Call.remove_member_of mid) w low =
      closed-SameContents (Call.remove_member_of mid) w
        (refused_owner (visible_project pid w) (membership_row pid user w) low).1
  refused_editor-SameContents Call.leave w low =
      open-keeps create_invite_token token_urlsafe strftime order_members pid user
        (ContentsAre (contents w) w.versions) (λ u row v are. are) Call.leave w
        (λ access v are.
          leave_project_route-KeepsContents (contents w) w.versions access user v are)
        (refl, refl)
  refused_editor-SameContents Call.read_presence w low =
      open-SameContents Call.read_presence w (λ access v are. are)
  refused_editor-SameContents (Call.read_versions params) w low =
      open-SameContents (Call.read_versions params) w (λ access v are. are)
  refused_editor-SameContents (Call.read_activity params) w low =
      open-SameContents (Call.read_activity params) w (λ access v are. are)
  refused_editor-SameContents (Call.keep_version label) w low =
      closed-SameContents (Call.keep_version label) w low
  refused_editor-SameContents (Call.read_version vid) w low =
      open-SameContents (Call.read_version vid) w (λ access v are.
        read_version_route-KeepsView content unseen (λ p at. refl) (λ r at. refl) (contents w)
          (map unseen w.members) w.versions access user vid v are)
  refused_editor-SameContents (Call.restore_version_of vid) w low =
      closed-SameContents (Call.restore_version_of vid) w low
  refused_editor-SameContents (Call.read_comments include_resolved) w low =
      open-SameContents (Call.read_comments include_resolved) w (λ access v are. are)
  refused_editor-SameContents (Call.post_comment body) w low =
      open-SameContents (Call.post_comment body) w (λ access v are.
        add_comment_route-KeepsView content unseen (λ p at. refl) (λ r at. refl) (contents w)
          (map unseen w.members) w.versions access user body v are)
  refused_editor-SameContents (Call.change_comment cid change) w low =
      open-SameContents (Call.change_comment cid change) w (λ access v are.
        update_comment_route-KeepsView content unseen (λ p at. refl) (λ r at. refl) (contents w)
          (map unseen w.members) w.versions access user cid change v are)
  refused_editor-SameContents (Call.remove_comment cid) w low =
      open-SameContents (Call.remove_comment cid) w (λ access v are.
        delete_comment_route-KeepsView content unseen (λ p at. refl) (λ r at. refl) (contents w)
          (map unseen w.members) w.versions access user cid v are)
  refused_editor-SameContents Call.read_public_link w low =
      closed-SameContents Call.read_public_link w
        (refused_owner (visible_project pid w) (membership_row pid user w) low).1
  refused_editor-SameContents Call.turn_on_link w low =
      closed-SameContents Call.turn_on_link w
        (refused_owner (visible_project pid w) (membership_row pid user w) low).1
  refused_editor-SameContents Call.replace_link w low =
      closed-SameContents Call.replace_link w
        (refused_owner (visible_project pid w) (membership_row pid user w) low).1
  refused_editor-SameContents Call.turn_off_link w low =
      closed-SameContents Call.turn_off_link w
        (refused_owner (visible_project pid w) (membership_row pid user w) low).1
