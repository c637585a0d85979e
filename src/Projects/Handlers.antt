-- ===== src/Projects/Handlers.antt =====
-- app/modules/projects/router.py: the handlers of the routes, each given its project. The listing of
-- projects is left out.
use mathlib.Core.Option
use prompt_studio_backend.Prelude.{
  ℕ, String, Bool, true, Option, none, some, List, [], ◌∷◌, map, if◌then◌else◌, ◌!=◌, ◌==◌, nat_eq,
  or_else,
}
use prompt_studio_backend.Collab.Hub.{Person, presence_snapshot}
use prompt_studio_backend.Core.Errors.{not_found_error, authorization_error}
use prompt_studio_backend.Core.Json.{Fields}
use prompt_studio_backend.Core.Pagination.{PageParams, Page, build}
use prompt_studio_backend.Core.Roles.{ProjectRole, project_role_eq}
use prompt_studio_backend.Projects.Access.{ProjectAccess}
use prompt_studio_backend.Projects.Comments.{
  CommentCreate, CommentUpdate, add_comment, list_comments, update_comment, delete_comment,
}
use prompt_studio_backend.Projects.Documents.{
  ProjectDocSave, save_doc, save_version, get_version_of, restored, restore_version,
}
use prompt_studio_backend.Projects.Lifecycle.{
  ProjectUpdate, update_project_metadata, delete_project, restore_project,
}
use prompt_studio_backend.Projects.Links.{
  enable_public_link, rotate_public_link, disable_public_link, project_by_public_token,
}
use prompt_studio_backend.Projects.Listing.{list_members, list_versions, list_activity}
use prompt_studio_backend.Projects.Members.{
  member_by_email, invite_member, update_member_role, remove_member, leave_project, mark_opened,
}
use prompt_studio_backend.Projects.Serializers.{
  ProjectSummary, ProjectDetail, MemberRead, PublicLinkRead, PublicProjectRead, VersionSummary,
  member_read, project_summary, project_detail, public_project, public_link, version_summary,
}
use prompt_studio_backend.Store.{
  User, Project, ProjectMember, ProjectActivity, ProjectComment, World,
}
use prompt_studio_backend.Store.Action.{
  Result, Action, pure, gets, or_raise, ◌>>=◌, ◌>>◌, raise_if, ok, err,
}
use prompt_studio_backend.Store.Rows.{get_user, get_project}
use prompt_studio_backend.Core.ErrorMessage

-- The body of a response.
pub data Response : Type 0 where
  summary_of : ProjectSummary → Response
  detail_of : ProjectDetail → Response
  member_of_project : MemberRead → Response
  added_members : List MemberRead → Response
  member_list : List MemberRead → Response
  people : List Person → Response
  version_of : VersionSummary → Response
  version_page : Page VersionSummary → Response
  activity_page : Page ProjectActivity → Response
  version_detail : VersionSummary → Fields → Response
  comment : ProjectComment → Response
  comments : List ProjectComment → Response
  link : PublicLinkRead → Response
  nothing : Response

-- `await db.get(User, key) if key else None`
abbrev pub account_of_key : Option ℕ → World → Option User
account_of_key key w = Option.bind key (λ uid. get_user uid w)

abbrev pub summarise : ProjectAccess → Project → Action Response
summarise access project = pure (summary_of (project_summary project (some access.role) none))

abbrev pub describe_member : ProjectMember → Action MemberRead
describe_member member = do
  account ← gets (account_of_key member.user_id)
  pure (member_read member account)

unfoldable pub read_project_route : ProjectAccess → User → Action Response
read_project_route access user = do
  mark_opened access
  owner ← gets (account_of_key access.project.owner_id)
  pure (detail_of (project_detail access.project (some access.role) owner))

unfoldable pub update_project_route : ProjectUpdate → ProjectAccess → User → Action Response
update_project_route change access user = do
  project ← update_project_metadata access user change
  owner ← gets (account_of_key project.owner_id)
  pure (summary_of (project_summary project (some access.role) owner))

unfoldable pub save_document_route : ProjectDocSave → ProjectAccess → User → Action Response
save_document_route body access user = do
  project ← save_doc access user body true true
  summarise access project

unfoldable pub delete_project_route : ProjectAccess → User → Action Response
delete_project_route access user = do delete_project access.project user; pure nothing

unfoldable pub update_member_route : ℕ → ProjectRole → ProjectAccess → User → Action Response
update_member_route mid role access user = do
  member ← update_member_role access.project user mid role
  read ← describe_member member
  pure (member_of_project read)

unfoldable pub remove_member_route : ℕ → ProjectAccess → User → Action Response
remove_member_route mid access user = do remove_member access.project user mid; pure nothing

unfoldable pub leave_project_route : ProjectAccess → User → Action Response
leave_project_route access user = do leave_project access user; pure nothing

unfoldable pub read_presence_route : ProjectAccess → User → Action Response
read_presence_route access user = do
  found ← gets (λ w. presence_snapshot access.project.id w.hub)
  pure (people found)

-- `authors_of`, for each version of the page
unfoldable pub list_versions_route : PageParams → ProjectAccess → User → Action Response
list_versions_route params access user = do
  listed ← gets (list_versions access.project.id params)
  rows ← gets (λ w. map (λ v. version_summary v (account_of_key v.created_by w)) listed.0)
  pure (version_page (build rows listed.1 params))

unfoldable pub list_activity_route : PageParams → ProjectAccess → User → Action Response
list_activity_route params access user = do
  listed ← gets (list_activity access.project.id params)
  pure (activity_page (build listed.0 listed.1 params))

unfoldable pub save_version_route : Option String → ProjectAccess → User → Action Response
save_version_route label access user = do
  version ← save_version access user (or_else label "")
  pure (version_of (version_summary version (some user)))

unfoldable pub read_version_route : ℕ → ProjectAccess → User → Action Response
read_version_route vid access user = do
  version ← get_version_of access.project.id vid
  author ← gets (account_of_key version.created_by)
  pure (version_detail (version_summary version author) version.doc)

unfoldable pub list_comments_route : Bool → ProjectAccess → User → Action Response
list_comments_route include_resolved access user = do
  found ← gets (list_comments access.project.id include_resolved)
  pure (comments found)

unfoldable pub add_comment_route : CommentCreate → ProjectAccess → User → Action Response
add_comment_route body access user = do posted ← add_comment access user body; pure (comment posted)

unfoldable pub update_comment_route : ℕ → CommentUpdate → ProjectAccess → User → Action Response
update_comment_route cid change access user = do
  posted ← update_comment access user cid change
  pure (comment posted)

unfoldable pub delete_comment_route : ℕ → ProjectAccess → User → Action Response
delete_comment_route cid access user = do delete_comment access user cid; pure nothing

unfoldable pub read_public_link_route : ProjectAccess → User → Action Response
read_public_link_route access user = pure (link (public_link access.project))

unfoldable pub disable_public_link_route : ProjectAccess → User → Action Response
disable_public_link_route access user = do
  project ← disable_public_link access.project user
  pure (link (public_link project))

-- An invitation's token is encoded by the jwt library.
module _ (create_invite_token : ℕ → String → String) where
  -- `except ConflictError: continue`
  abbrev pub note_added :
      Result ProjectMember × World
      → (World → Result (List MemberRead) × World)
      → (MemberRead → World → Result (List MemberRead) × World)
      → Result (List MemberRead) × World
  note_added (ok member, w) skip keep =
      keep (member_read member (account_of_key member.user_id w)) w
  note_added (err e, w) skip keep = if e.status_code == 409 then skip w else (err e, w)

  -- The loop of `add_members`.
  unfoldable pub add_each : Project → User → List String → ProjectRole → Action (List MemberRead)
  add_each project user [] role w = (ok [], w)
  add_each project user (email ∷ emails) role w =
      note_added (invite_member create_invite_token project user email role w)
        (add_each project user emails role)
        (λ member. do added ← add_each project user emails role; pure (member ∷ added))

  unfoldable pub add_member_route : String → ProjectRole → ProjectAccess → User → Action Response
  add_member_route email role access user = do
    member ← invite_member create_invite_token access.project user email role
    read ← describe_member member
    pure (member_of_project read)

  unfoldable pub add_members_route :
      List String → ProjectRole → ProjectAccess → User → Action Response
  add_members_route emails role access user = do
    added ← add_each access.project user emails role
    pure (added_members added)

-- The text of a time is the standard library's.
module _ (strftime : ℕ → String) where
  unfoldable pub restore_version_route : ℕ → ProjectAccess → User → Action Response
  restore_version_route vid access user = do
    project ← restore_version access user vid strftime
    summarise access project

-- How the database orders the members is a parameter.
module _ (order_members : List ProjectMember → List ProjectMember) where
  unfoldable pub list_members_route : ProjectAccess → User → Action Response
  list_members_route access user = do
    listed ← gets (list_members order_members access.project.id)
    pure (member_list (map (λ row. member_read row.0 row.1) listed))

-- The public token is drawn by `secrets.token_urlsafe`.
module _ (token_urlsafe : String) where
  unfoldable pub enable_public_link_route : ProjectAccess → User → Action Response
  enable_public_link_route access user = do
    project ← enable_public_link token_urlsafe access.project user
    pure (link (public_link project))

  unfoldable pub rotate_public_link_route : ProjectAccess → User → Action Response
  rotate_public_link_route access user = do
    project ← rotate_public_link token_urlsafe access.project user
    pure (link (public_link project))

-- `restore_project`: resolved by hand, since the usual dependency filters the trash out.
unfoldable pub restore_route : ℕ → User → Action Response
restore_route pid user = do
  found ← gets (get_project pid)
  project ← or_raise found (not_found_error ErrorMessage.project_not_found)
  row ← gets (member_by_email pid user.email)
  member ← or_raise row (not_found_error ErrorMessage.project_not_found)
  raise_if (member.role != ProjectRole.owner) (authorization_error ErrorMessage.not_project_owner)
  restored ← restore_project pid user
  pure (summary_of (project_summary restored (some ProjectRole.owner) none))

-- `read_public_project`: anonymous, and read-only.
unfoldable pub read_public_project : String → Action PublicProjectRead
read_public_project token = do
  project ← project_by_public_token token
  pure (public_project project)
