-- ===== src/Projects/Routes.antt =====
-- app/modules/projects/router.py: the routes below one project whose dependency demands a role. Each
-- is given its project by that dependency, and then calls its handler. Restoring from the trash, which
-- resolves its project by hand, is in Handlers.
pub mod View
pub mod Contents
pub mod Sharing
pub mod Refused
pub mod Answered
pub mod Commenters
pub mod Editors
pub mod Owners
pub mod Guarded
use prompt_studio_backend.Prelude.{ℕ, String, Bool, Option, List}
use prompt_studio_backend.Core.Pagination.{PageParams}
use prompt_studio_backend.Core.Roles.{ProjectRole}
use prompt_studio_backend.Projects.Access.{ProjectAccess, resolve_access}
use prompt_studio_backend.Projects.Comments.{CommentCreate, CommentUpdate}
use prompt_studio_backend.Projects.Documents.{ProjectDocSave}
use prompt_studio_backend.Projects.Handlers.{
  Response, read_project_route, update_project_route, save_document_route, delete_project_route,
  update_member_route, remove_member_route, leave_project_route, read_presence_route,
  list_versions_route, list_activity_route, save_version_route, read_version_route,
  list_comments_route, add_comment_route, update_comment_route, delete_comment_route,
  read_public_link_route, disable_public_link_route, add_member_route, add_members_route,
  restore_version_route, list_members_route, enable_public_link_route, rotate_public_link_route,
}
use prompt_studio_backend.Projects.Lifecycle.{ProjectUpdate}
use prompt_studio_backend.Store.{User, ProjectMember}
use prompt_studio_backend.Store.Action.{Action, ◌>>=◌, ◌>>◌}

-- A request to one project, with its path and its body.
pub data Call : Type 0 where
  read_project : Call
  update_project : ProjectUpdate → Call
  save_document : ProjectDocSave → Call
  remove_project : Call
  read_members : Call
  add_member : String → ProjectRole → Call
  add_members : List String → ProjectRole → Call
  update_member : ℕ → ProjectRole → Call
  remove_member_of : ℕ → Call
  leave : Call
  read_presence : Call
  read_versions : PageParams → Call
  read_activity : PageParams → Call
  keep_version : Option String → Call
  read_version : ℕ → Call
  restore_version_of : ℕ → Call
  read_comments : Bool → Call
  post_comment : CommentCreate → Call
  change_comment : ℕ → CommentUpdate → Call
  remove_comment : ℕ → Call
  read_public_link : Call
  turn_on_link : Call
  replace_link : Call
  turn_off_link : Call

-- The role that the route's dependency demands: `ProjectViewer`, `ProjectCommenter`,
-- `ProjectEditor` or `ProjectOwner`.
unfoldable pub minimum_of : Call → ProjectRole
minimum_of read_project = ProjectRole.viewer
minimum_of (update_project change) = ProjectRole.editor
minimum_of (save_document body) = ProjectRole.editor
minimum_of remove_project = ProjectRole.owner
minimum_of read_members = ProjectRole.viewer
minimum_of (add_member email role) = ProjectRole.owner
minimum_of (add_members emails role) = ProjectRole.owner
minimum_of (update_member mid role) = ProjectRole.owner
minimum_of (remove_member_of mid) = ProjectRole.owner
minimum_of leave = ProjectRole.viewer
minimum_of read_presence = ProjectRole.viewer
minimum_of (read_versions params) = ProjectRole.viewer
minimum_of (read_activity params) = ProjectRole.viewer
minimum_of (keep_version label) = ProjectRole.editor
minimum_of (read_version vid) = ProjectRole.viewer
minimum_of (restore_version_of vid) = ProjectRole.editor
minimum_of (read_comments include_resolved) = ProjectRole.viewer
minimum_of (post_comment body) = ProjectRole.commenter
minimum_of (change_comment cid change) = ProjectRole.commenter
minimum_of (remove_comment cid) = ProjectRole.commenter
minimum_of read_public_link = ProjectRole.owner
minimum_of turn_on_link = ProjectRole.owner
minimum_of replace_link = ProjectRole.owner
minimum_of turn_off_link = ProjectRole.owner

module _ (create_invite_token : ℕ → String → String) (token_urlsafe : String)
    (strftime : ℕ → String) (order_members : List ProjectMember → List ProjectMember) where
  -- The handler of each route.
  unfoldable pub perform : Call → ProjectAccess → User → Action Response
  perform read_project access user = read_project_route access user
  perform (update_project change) access user = update_project_route change access user
  perform (save_document body) access user = save_document_route body access user
  perform remove_project access user = delete_project_route access user
  perform read_members access user = list_members_route order_members access user
  perform (add_member email role) access user =
      add_member_route create_invite_token email role access user
  perform (add_members emails role) access user =
      add_members_route create_invite_token emails role access user
  perform (update_member mid role) access user = update_member_route mid role access user
  perform (remove_member_of mid) access user = remove_member_route mid access user
  perform leave access user = leave_project_route access user
  perform read_presence access user = read_presence_route access user
  perform (read_versions params) access user = list_versions_route params access user
  perform (read_activity params) access user = list_activity_route params access user
  perform (keep_version label) access user = save_version_route label access user
  perform (read_version vid) access user = read_version_route vid access user
  perform (restore_version_of vid) access user = restore_version_route strftime vid access user
  perform (read_comments include_resolved) access user =
      list_comments_route include_resolved access user
  perform (post_comment body) access user = add_comment_route body access user
  perform (change_comment cid change) access user = update_comment_route cid change access user
  perform (remove_comment cid) access user = delete_comment_route cid access user
  perform read_public_link access user = read_public_link_route access user
  perform turn_on_link access user = enable_public_link_route token_urlsafe access user
  perform replace_link access user = rotate_public_link_route token_urlsafe access user
  perform turn_off_link access user = disable_public_link_route access user

  -- A request to one project, once its caller is known.
  unfoldable pub route : ℕ → Call → User → Action Response
  route pid call user = do
    access ← resolve_access pid user (minimum_of call)
    perform call access user
