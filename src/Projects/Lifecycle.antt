-- ===== src/Projects/Lifecycle.antt =====
-- app/modules/projects/service.py: creating a project, changing its metadata, moving it to the
-- trash and back.
pub mod Trash
pub mod Birth
pub mod Archive
use mathlib.Core.Option
use prompt_studio_backend.Prelude.{
  ℕ, String, Bool, true, false, not, ◌&&◌, Option, none, some, List, [], ◌∷◌, map, if◌then◌else◌,
  ◌!=◌, ◌==◌, nat_eq, string_eq, is_some, or_else, select_where, any_where,
}
use prompt_studio_backend.Core.Errors.{not_found_error, authorization_error}
use prompt_studio_backend.Core.Json.{Fields}
use prompt_studio_backend.Core.Roles.{ProjectRole, MemberStatus, ActivityType, project_role_eq}
use prompt_studio_backend.Core.Text.{strip, normalise_email, format}
use prompt_studio_backend.Projects.Access.{ProjectAccess}
use prompt_studio_backend.Projects.Documents.{sync_counts, reload}
use prompt_studio_backend.Projects.Feed.{record_audit, add_activity}
use prompt_studio_backend.Projects.Members.{invite_member, evict_open_sockets}
use prompt_studio_backend.Store.{User, Project, ProjectMember, World}
use prompt_studio_backend.Store.Action.{
  Result, Action, pure, gets, or_raise, ◌>>=◌, ◌>>◌, modify, raise_if, when, new_id, commit, ok,
  err,
}
use prompt_studio_backend.Store.Rows.{get_project, update_project, add_project, add_member}
use prompt_studio_backend.Core.ErrorMessage

-- The request bodies (schemas.py, `ProjectCreate` and `ProjectUpdate`).
pub record ProjectCreate : Type 0 where
  pub name : String
  pub description : String
  pub doc : Fields
  pub schema_version : ℕ
  pub member_emails : List String

pub record ProjectUpdate : Type 0 where
  pub name : Option String
  pub description : Option String
  pub is_archived : Option Bool

abbrev pub new_project : ℕ → User → ProjectCreate → ℕ → Project
new_project key user body now = sync_counts (record {
  id = key;
  name = strip body.name;
  description = strip body.description;
  doc = body.doc;
  schema_version = body.schema_version;
  doc_version = 1;
  screen_count = 0;
  module_count = 0;
  owner_id = some user.id;
  is_archived = false;
  last_activity_at = some now;
  public_token = none;
  public_enabled_at = none;
  public_enabled_by_id = none;
  is_deleted = false;
  deleted_at = none;
  created_by = some user.id;
  updated_by = some user.id;
})

-- The creator's own row.
abbrev pub creator_row : ℕ → ℕ → User → ℕ → ProjectMember
creator_row key pid user now = record {
  id = key;
  project_id = pid;
  email = user.email;
  user_id = some user.id;
  role = ProjectRole.owner;
  status = MemberStatus.active;
  invited_by = some user.id;
  invited_at = some now;
  joined_at = some now;
  last_opened_at = none;
}

-- `try: await invite_member(…) except ConflictError: continue`
abbrev pub skip_conflict : Result ProjectMember × World → Result (Unit {0}) × World
skip_conflict (ok row, w) = (ok tt, w)
skip_conflict (err e, w) = (if e.status_code == 409 then ok tt else err e, w)

abbrev pub invite_or_skip : (ℕ → String → String) → Project → User → String → Action (Unit {0})
invite_or_skip create_invite_token project user address w =
    skip_conflict (invite_member create_invite_token project user address ProjectRole.editor w)

-- The loop over the addresses; `seen` is the set of those that it came across.
pub invite_all :
    (ℕ → String → String) → Project → User → List String → List String → Action (Unit {0})
invite_all create_invite_token project user seen [] = pure tt
invite_all create_invite_token project user seen (email ∷ emails) = do
  let address = normalise_email email
  when (not (any_where (λ s. s == address) seen))
      (invite_or_skip create_invite_token project user address)
  invite_all create_invite_token project user (address ∷ seen) emails

-- The project, its owner row, the feed and the audit log, committed before any mail is sent.
pub start_project : User → ProjectCreate → Action Project
start_project user body = do
  key ← new_id
  row_key ← new_id
  now ← gets (λ w. w.now)
  let project = new_project key user body now
  modify (add_project project)
  modify (add_member (creator_row row_key project.id user now))
  add_activity project (some user) ActivityType.project_created
      (format ("created “" ∷ project.name ∷ "”" ∷ [])) []
  record_audit "project.create" "project" project.id
      (format (user.email ∷ " created project " ∷ project.name ∷ []))
  commit
  pure project

pub create_project : (ℕ → String → String) → User → ProjectCreate → Action Project
create_project create_invite_token user body = do
  project ← start_project user body
  invite_all create_invite_token project user (user.email ∷ []) body.member_emails
  gets (reload project)

-- `setattr` for each field that was sent, texts stripped.
abbrev pub changed : ProjectUpdate → User → Project → Project
changed change user p = record p {
  name = or_else (Option.map strip change.name) p.name;
  description = or_else (Option.map strip change.description) p.description;
  is_archived = or_else change.is_archived p.is_archived;
  updated_by = some user.id;
}

-- `"name" in changes and changes["name"].strip() != project.name`
abbrev pub is_renamed : Option String → Project → Bool
is_renamed none project = false
is_renamed (some name) project = strip name != project.name

unfoldable pub update_project_metadata : ProjectAccess → User → ProjectUpdate → Action Project
update_project_metadata access user change = do
  raise_if (is_some change.is_archived && access.role != ProjectRole.owner)
      (authorization_error ErrorMessage.not_project_owner)
  modify (update_project access.project.id (changed change user))
  when (is_renamed change.name access.project) (
      add_activity access.project (some user) ActivityType.project_renamed
        (format ("renamed it to “" ∷ (changed change user access.project).name ∷ "”" ∷ [])) [])
  commit
  gets (reload access.project)

abbrev pub deleted : User → ℕ → Project → Project
deleted user now p = record p {
  is_deleted = true;
  deleted_at = some now;
  updated_by = some user.id;
}

-- `for member in members: await _evict_open_sockets(project.id, member.user_id)`
pub evict_members : ℕ → List ProjectMember → Action (Unit {0})
evict_members pid [] = pure tt
evict_members pid (member ∷ members) = do
  evict_open_sockets pid member.user_id
  evict_members pid members

-- The first half of `delete_project`: the row and the audit log, committed; then, who was on it.
pub trash : Project → User → Action (List ProjectMember)
trash project user = do
  now ← gets (λ w. w.now)
  modify (update_project project.id (deleted user now))
  members ← gets (λ w. select_where (λ row. row.project_id == project.id) w.members)
  record_audit "project.delete" "project" project.id
      (format (user.email ∷ " deleted project " ∷ project.name ∷ []))
  commit
  pure members

pub delete_project : Project → User → Action (Unit {0})
delete_project project user = do members ← trash project user; evict_members project.id members

abbrev pub undeleted : User → Project → Project
undeleted user p = record p { is_deleted = false; deleted_at = none; updated_by = some user.id }

unfoldable pub restore_project : ℕ → User → Action Project
restore_project pid user = do
  found ← gets (get_project pid)
  project ← or_raise found (not_found_error ErrorMessage.project_not_found)
  raise_if (not project.is_deleted) (not_found_error ErrorMessage.project_not_found)
  modify (update_project project.id (undeleted user))
  add_activity project (some user) ActivityType.project_restored "restored the project" []
  commit
  gets (reload project)
