-- ===== src/Projects/Comments.antt =====
-- app/modules/projects/service.py: the comments of a project.
pub mod Authors
use mathlib.Core.Option
use mathlib.Core.List.{reverse}
use prompt_studio_backend.Prelude.{
  ℕ, String, Bool, true, false, not, ◌&&◌, ◌||◌, Option, none, some, List, [], ◌∷◌, if◌then◌else◌,
  ◌!=◌, ◌==◌, nat_eq, string_eq, holds, is_none, is_some, or_else, select_where, order_by_desc,
}
use prompt_studio_backend.Core.Errors.{not_found_error, conflict_error}
use prompt_studio_backend.Core.Roles.{ActivityType}
use prompt_studio_backend.Core.Text.{format}
use prompt_studio_backend.Projects.Access.{ProjectAccess, is_owner}
use prompt_studio_backend.Projects.Feed.{add_activity}
use prompt_studio_backend.Store.{User, ProjectComment, World}
use prompt_studio_backend.Store.Action.{
  Action, pure, gets, or_raise, ◌>>=◌, ◌>>◌, modify, raise_if, new_id, commit,
}
use prompt_studio_backend.Store.Rows.{get_comment, update_comment_row, add_comment_row}

-- The request bodies (schemas.py, `CommentCreate` and `CommentUpdate`).
pub record CommentCreate : Type 0 where
  pub target_kind : String
  pub target_key : String
  pub body : String

pub record CommentUpdate : Type 0 where
  pub body : Option String
  pub resolved : Option Bool

abbrev pub new_comment : ℕ → ProjectAccess → User → CommentCreate → ℕ → ProjectComment
new_comment key access user body now = record {
  id = key;
  project_id = access.project.id;
  author_id = some user.id;
  author_email = user.email;
  target_kind = body.target_kind;
  target_key = body.target_key;
  body = body.body;
  resolved_at = none;
  resolved_by = none;
  is_deleted = false;
  deleted_at = none;
  created_by = some user.id;
  updated_by = none;
  created_at = now;
}

unfoldable pub add_comment : ProjectAccess → User → CommentCreate → Action ProjectComment
add_comment access user body = do
  key ← new_id
  now ← gets (λ w. w.now)
  modify (add_comment_row (new_comment key access user body now))
  add_activity access.project (some user) ActivityType.comment_added
      (format
        ("commented on " ∷ (if body.target_key == "" then "the canvas" else body.target_key) ∷ []))
      []
  commit
  pure (new_comment key access user body now)

-- The rows that `list_comments` selects, and the list, oldest first.
abbrev pub is_listed : ℕ → Bool → ProjectComment → Bool
is_listed pid include_resolved row =
    row.project_id == pid && not row.is_deleted && (include_resolved || is_none row.resolved_at)

pub list_comments : ℕ → Bool → World → List ProjectComment
list_comments pid include_resolved w = reverse (
    order_by_desc (λ (row : ProjectComment). row.created_at)
      (select_where (is_listed pid include_resolved) w.comments))

-- A comment of this project that is not deleted.
unfoldable pub comment_of : ℕ → ℕ → Action ProjectComment
comment_of pid comment_id = do
  found ← gets (get_comment comment_id)
  comment ← or_raise found (not_found_error "Comment not found")
  raise_if (comment.project_id != pid || comment.is_deleted) (not_found_error "Comment not found")
  pure comment

-- Anyone on the project may resolve a thread.
abbrev pub resolve : Option Bool → User → ℕ → ProjectComment → ProjectComment
resolve none user now row = row
resolve (some true) user now row = record row { resolved_at = some now; resolved_by = some user.id }
resolve (some false) user now row = record row { resolved_at = none; resolved_by = none }

abbrev pub edited : CommentUpdate → User → ℕ → ProjectComment → ProjectComment
edited change user now row =
    let reworded = record row { body = or_else change.body row.body } in
    record (resolve change.resolved user now reworded) { updated_by = some user.id }

unfoldable pub update_comment : ProjectAccess → User → ℕ → CommentUpdate → Action ProjectComment
update_comment access user comment_id change = do
  comment ← comment_of access.project.id comment_id
  raise_if (is_some change.body && not (holds comment.author_id user.id))
      (conflict_error "Only the author can edit a comment" [])
  now ← gets (λ w. w.now)
  modify (update_comment_row comment.id (edited change user now))
  commit
  pure (edited change user now comment)

abbrev pub trashed : User → ℕ → ProjectComment → ProjectComment
trashed user now row = record row {
  is_deleted = true;
  deleted_at = some now;
  updated_by = some user.id;
}

unfoldable pub delete_comment : ProjectAccess → User → ℕ → Action (Unit {0})
delete_comment access user comment_id = do
  comment ← comment_of access.project.id comment_id
  raise_if (not (holds comment.author_id user.id) && not (is_owner access))
      (conflict_error "Only the author or a project owner can delete a comment" [])
  now ← gets (λ w. w.now)
  modify (update_comment_row comment.id (trashed user now))
  commit
