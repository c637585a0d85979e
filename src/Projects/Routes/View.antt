-- ===== src/Projects/Routes/View.antt =====
-- What of the projects and of their members is left alone by the handlers that a viewer or a
-- commenter may reach (app/modules/projects/router.py).
use prompt_studio_backend.Prelude.{
  ℕ, ◌+◌, String, ◌≡◌, ◌∙◌, not, ◌&&◌, ◌||◌, Option, some, List, [], ◌∷◌, map, if◌then◌else◌, ◌!=◌,
  ◌==◌, nat_eq, string_eq, holds, is_some, map-update_kept,
}
use prompt_studio_backend.Core.Errors.{not_found_error, conflict_error}
use prompt_studio_backend.Core.Roles.{ActivityType, project_role_eq}
use prompt_studio_backend.Core.Text.{format}
use prompt_studio_backend.Projects.Access.{ProjectAccess, is_owner}
use prompt_studio_backend.Projects.Comments.{
  CommentCreate, CommentUpdate, new_comment, add_comment, comment_of, update_comment,
  delete_comment,
}
use prompt_studio_backend.Projects.Documents.{get_version_of}
use prompt_studio_backend.Projects.Feed.{add_activity}
use prompt_studio_backend.Projects.Handlers.{
  read_project_route, read_version_route, add_comment_route, update_comment_route,
  delete_comment_route,
}
use prompt_studio_backend.Projects.Members.{mark_opened}
use prompt_studio_backend.Store.{User, Project, ProjectMember, ProjectVersion, World}
use prompt_studio_backend.Store.Action.{Result, Action, or_raise, continue, raise_if}
use prompt_studio_backend.Store.Frames.{continue-then, or_raise-holds}
use prompt_studio_backend.Store.Rows.{get_version, get_comment, add_comment_row}
use prompt_studio_backend.Core.ErrorMessage

-- A view of the projects that does not show when they were last touched, and one of the members that
-- does not show when they last opened a project.
module _ {B D : Type 0} (column : Project → B) (shown : ProjectMember → D)
    (touched : (p : Project) (at : ℕ) → column (record p { last_activity_at = some at }) ≡ column p)
    (opened : (r : ProjectMember) (at : ℕ)
      → shown (record r { last_opened_at = some at }) ≡ shown r)
    (projects : List B) (members : List D) (versions : List ProjectVersion) where
  abbrev pub ViewIs : World → Type 0
  ViewIs w =
      (map column w.projects ≡ projects) × (map shown w.members ≡ members) × (w.versions ≡ versions)

  abbrev pub KeepsView : {A : Type 0} → Result A × World → Type 0
  KeepsView (r, w) =
      (map column w.projects ≡ projects) × (map shown w.members ≡ members) × (w.versions ≡ versions)

  -- One step after another.
  pub still :
      {A B : Type 0} (r : Result A × World) (f : A → Action B)
      → ViewIs r.1
      → ((a : A) (w : World) → ViewIs w → KeepsView (f a w))
      → KeepsView (continue r f)
  still r f = continue-then ViewIs KeepsView (λ r w p. p) r f

  pub add_activity-ViewIs :
      (project : Project) (actor : Option User) (kind : ActivityType) (summary : String)
      (meta : List (String × ℕ)) (w : World)
      → ViewIs w
      → ViewIs (add_activity project actor kind summary meta w).1
  unfolding add_activity
  add_activity-ViewIs project actor kind summary meta w are = (
    map-update_kept column (λ p. p.id == project.id)
          (λ p. record p { last_activity_at = some w.now }) w.projects (λ p. touched p w.now)
        ∙ are.0,
    are.1,
    are.2,
  )

  comment_of-KeepsView : (pid cid : ℕ) (w : World) → ViewIs w → KeepsView (comment_of pid cid w)
  unfolding comment_of
  comment_of-KeepsView pid cid w are =
      still (or_raise (get_comment cid w) (not_found_error "Comment not found") w) _
        (or_raise-holds ViewIs (get_comment cid w) (not_found_error "Comment not found") w are)
        λ comment w' are'.
          still
            (raise_if (comment.project_id != pid || comment.is_deleted)
              (not_found_error "Comment not found") w')
            _ are' (λ _ v p. p)

  pub get_version_of-KeepsView :
      (pid vid : ℕ) (w : World) → ViewIs w → KeepsView (get_version_of pid vid w)
  unfolding get_version_of
  get_version_of-KeepsView pid vid w are =
      still (or_raise (get_version vid w) (not_found_error ErrorMessage.version_not_found) w) _
        (or_raise-holds ViewIs (get_version vid w) (not_found_error ErrorMessage.version_not_found)
          w are)
        λ version w' are'.
          still
            (raise_if (version.project_id != pid) (not_found_error ErrorMessage.version_not_found)
              w')
            _ are' (λ _ v p. p)

  module _ (access : ProjectAccess) (user : User) where
    pub read_project_route-KeepsView :
        (w : World) → ViewIs w → KeepsView (read_project_route access user w)
    unfolding read_project_route mark_opened
    read_project_route-KeepsView w are = (
      are.0,
      map-update_kept shown (λ r. r.id == access.member.id)
            (λ r. record r { last_opened_at = some w.now }) w.members (λ r. opened r w.now)
          ∙ are.1,
      are.2,
    )

    pub read_version_route-KeepsView :
        (vid : ℕ) (w : World) → ViewIs w → KeepsView (read_version_route vid access user w)
    unfolding read_version_route
    read_version_route-KeepsView vid w are =
        still (get_version_of access.project.id vid w) _
          (get_version_of-KeepsView access.project.id vid w are) (λ version w' are'. are')

    pub add_comment_route-KeepsView :
        (body : CommentCreate) (w : World)
        → ViewIs w
        → KeepsView (add_comment_route body access user w)
    unfolding add_comment_route add_comment
    add_comment_route-KeepsView body w are =
        let posted =
          add_comment_row (new_comment w.next_id access user body w.now)
            (record w { next_id = w.next_id + 1 }) in
        let summary = format (
          "commented on "
          ∷ (if body.target_key == "" then "the canvas" else body.target_key)
          ∷ []) in
        let kind = ActivityType.comment_added in
        still (add_comment access user body w) _
          (still (add_activity access.project (some user) kind summary [] posted) _
            (add_activity-ViewIs access.project (some user) kind summary [] posted are)
            (λ _ w' are'. are'))
          (λ _ w' are'. are')

    pub update_comment_route-KeepsView :
        (cid : ℕ) (change : CommentUpdate) (w : World)
        → ViewIs w
        → KeepsView (update_comment_route cid change access user w)
    unfolding update_comment_route update_comment
    update_comment_route-KeepsView cid change w are =
        still (update_comment access user cid change w) _
          (still (comment_of access.project.id cid w) _
            (comment_of-KeepsView access.project.id cid w are)
            λ comment w' are'.
              still
                (raise_if (is_some change.body && not (holds comment.author_id user.id))
                  (conflict_error "Only the author can edit a comment" []) w')
                _ are' (λ _ v p. p))
          (λ posted w' are'. are')

    pub delete_comment_route-KeepsView :
        (cid : ℕ) (w : World) → ViewIs w → KeepsView (delete_comment_route cid access user w)
    unfolding delete_comment_route delete_comment
    delete_comment_route-KeepsView cid w are =
        still (delete_comment access user cid w) _
          (still (comment_of access.project.id cid w) _
            (comment_of-KeepsView access.project.id cid w are)
            λ comment w' are'.
              still
                (raise_if (not (holds comment.author_id user.id) && not (is_owner access))
                  (conflict_error "Only the author or a project owner can delete a comment" []) w')
                _ are' (λ _ v p. p))
          (λ _ w' are'. are')
