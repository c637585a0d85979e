-- ===== src/Projects/Routes/Owners.antt =====
-- What no one below an owner changes (app/modules/projects/router.py).
use prompt_studio_backend.Prelude.{
  ℕ, String, ◌≡◌, refl, ◌∙◌, ◌⊎◌, inl, inr, List, map, ◌==◌, nat_eq, map-update_kept,
}
use prompt_studio_backend.Core.Errors.{AppError}
use prompt_studio_backend.Core.Roles.{ProjectRole}
use prompt_studio_backend.Projects.Access.{ProjectAccess, bound}
use prompt_studio_backend.Projects.Access.Decision.{decision, visible_project, membership_row}
use prompt_studio_backend.Projects.Access.Frame.{after_binding}
use prompt_studio_backend.Projects.Handlers.{
  Response, read_presence_route, list_versions_route, list_activity_route, list_comments_route,
  list_members_route,
}
use prompt_studio_backend.Projects.Routes.{Call, minimum_of, perform, route}
use prompt_studio_backend.Projects.Routes.Answered.{closed-keeps, open-keeps}
use prompt_studio_backend.Projects.Routes.Sharing.{
  share, seat, SharingIs, update_project_route-KeepsSharing, save_document_route-KeepsSharing,
  save_version_route-KeepsSharing, restore_version_route-KeepsSharing,
}
use prompt_studio_backend.Projects.Routes.View.{
  read_project_route-KeepsView, read_version_route-KeepsView, add_comment_route-KeepsView,
  update_comment_route-KeepsView, delete_comment_route-KeepsView,
}
use prompt_studio_backend.Store.{User, ProjectMember, World}
use prompt_studio_backend.Store.Action.{Result, err}

abbrev pub SameSharing : World → World → Type 0
SameSharing w w' = SharingIs (map share w.projects) (map seat w.members) w'

module _ (create_invite_token : ℕ → String → String) (token_urlsafe : String)
    (strftime : ℕ → String) (order_members : List ProjectMember → List ProjectMember) (pid : ℕ)
    (user : User) where
  abbrev answered : Call → World → Result Response × World
  answered call w = route create_invite_token token_urlsafe strftime order_members pid call user w

  sharing-binding :
      (w : World) (u : User) (row : ProjectMember) (v : World)
      → SameSharing w v
      → SameSharing w (after_binding u row v)
  sharing-binding w u row v are = (
    are.0,
    map-update_kept seat (λ r. r.id == row.id) (bound u v.now) v.members (λ r. refl) ∙ are.1,
  )

  open-SameSharing :
      (call : Call) (w : World)
      → ((access : ProjectAccess) (v : World)
          → SameSharing w v
          → SameSharing w
              (perform create_invite_token token_urlsafe strftime order_members call access user
                v).1)
      → SameSharing w (answered call w).1
  open-SameSharing call w keeps =
      open-keeps create_invite_token token_urlsafe strftime order_members pid user (SameSharing w)
        (sharing-binding w) call w keeps (refl, refl)

  closed-SameSharing :
      (call : Call) (w : World) {e : AppError}
      → decision (visible_project pid w) (membership_row pid user w) (minimum_of call) ≡ err e
      → SameSharing w (answered call w).1
  closed-SameSharing call w closed =
      closed-keeps create_invite_token token_urlsafe strftime order_members pid user (SameSharing w)
        (sharing-binding w) call w closed (refl, refl)

  pub refused_owner-SameSharing :
      (call : Call) (w : World) {e : AppError}
      → decision (visible_project pid w) (membership_row pid user w) ProjectRole.owner ≡ err e
      → (call ≡ Call.leave) ⊎ SameSharing w (answered call w).1
  unfolding minimum_of perform list_members_route read_presence_route list_versions_route
      list_activity_route list_comments_route
  refused_owner-SameSharing Call.read_project w low = inr (
      open-SameSharing Call.read_project w (λ access v are.
        let kept =
          read_project_route-KeepsView share seat (λ p at. refl) (λ r at. refl)
            (map share w.projects) (map seat w.members) v.versions access user v
            (are.0, are.1, refl) in
        (kept.0, kept.1)))
  refused_owner-SameSharing (Call.update_project change) w low = inr (
      open-SameSharing (Call.update_project change) w (λ access v are.
        update_project_route-KeepsSharing (map share w.projects) (map seat w.members) access user
          change v are))
  refused_owner-SameSharing (Call.save_document body) w low = inr (
      open-SameSharing (Call.save_document body) w (λ access v are.
        save_document_route-KeepsSharing (map share w.projects) (map seat w.members) access user
          body v are))
  refused_owner-SameSharing Call.remove_project w low =
      inr (closed-SameSharing Call.remove_project w low)
  refused_owner-SameSharing Call.read_members w low =
      inr (open-SameSharing Call.read_members w (λ access v are. are))
  refused_owner-SameSharing (Call.add_member email role) w low =
      inr (closed-SameSharing (Call.add_member email role) w low)
  refused_owner-SameSharing (Call.add_members emails role) w low =
      inr (closed-SameSharing (Call.add_members emails role) w low)
  refused_owner-SameSharing (Call.update_member mid role) w low =
      inr (closed-SameSharing (Call.update_member mid role) w low)
  refused_owner-SameSharing (Call.remove_member_of mid) w low =
      inr (closed-SameSharing (Call.remove_member_of mid) w low)
  refused_owner-SameSharing Call.leave w low = inl refl
  refused_owner-SameSharing Call.read_presence w low =
      inr (open-SameSharing Call.read_presence w (λ access v are. are))
  refused_owner-SameSharing (Call.read_versions params) w low =
      inr (open-SameSharing (Call.read_versions params) w (λ access v are. are))
  refused_owner-SameSharing (Call.read_activity params) w low =
      inr (open-SameSharing (Call.read_activity params) w (λ access v are. are))
  refused_owner-SameSharing (Call.keep_version label) w low = inr (
      open-SameSharing (Call.keep_version label) w (λ access v are.
        save_version_route-KeepsSharing (map share w.projects) (map seat w.members) access user
          label v are))
  refused_owner-SameSharing (Call.read_version vid) w low = inr (
      open-SameSharing (Call.read_version vid) w (λ access v are.
        let kept =
          read_version_route-KeepsView share seat (λ p at. refl) (λ r at. refl)
            (map share w.projects) (map seat w.members) v.versions access user vid v
            (are.0, are.1, refl) in
        (kept.0, kept.1)))
  refused_owner-SameSharing (Call.restore_version_of vid) w low = inr (
      open-SameSharing (Call.restore_version_of vid) w (λ access v are.
        restore_version_route-KeepsSharing (map share w.projects) (map seat w.members) access user
          strftime vid v are))
  refused_owner-SameSharing (Call.read_comments include_resolved) w low =
      inr (open-SameSharing (Call.read_comments include_resolved) w (λ access v are. are))
  refused_owner-SameSharing (Call.post_comment body) w low = inr (
      open-SameSharing (Call.post_comment body) w (λ access v are.
        let kept =
          add_comment_route-KeepsView share seat (λ p at. refl) (λ r at. refl)
            (map share w.projects) (map seat w.members) v.versions access user body v
            (are.0, are.1, refl) in
        (kept.0, kept.1)))
  refused_owner-SameSharing (Call.change_comment cid change) w low = inr (
      open-SameSharing (Call.change_comment cid change) w (λ access v are.
        let kept =
          update_comment_route-KeepsView share seat (λ p at. refl) (λ r at. refl)
            (map share w.projects) (map seat w.members) v.versions access user cid change v
            (are.0, are.1, refl) in
        (kept.0, kept.1)))
  refused_owner-SameSharing (Call.remove_comment cid) w low = inr (
      open-SameSharing (Call.remove_comment cid) w (λ access v are.
        let kept =
          delete_comment_route-KeepsView share seat (λ p at. refl) (λ r at. refl)
            (map share w.projects) (map seat w.members) v.versions access user cid v
            (are.0, are.1, refl) in
        (kept.0, kept.1)))
  refused_owner-SameSharing Call.read_public_link w low =
      inr (closed-SameSharing Call.read_public_link w low)
  refused_owner-SameSharing Call.turn_on_link w low =
      inr (closed-SameSharing Call.turn_on_link w low)
  refused_owner-SameSharing Call.replace_link w low =
      inr (closed-SameSharing Call.replace_link w low)
  refused_owner-SameSharing Call.turn_off_link w low =
      inr (closed-SameSharing Call.turn_off_link w low)
