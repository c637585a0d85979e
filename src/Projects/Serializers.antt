-- ===== src/Projects/Serializers.antt =====
-- app/modules/projects/serializers.py: what of a row a response shows. The lists of members, the
-- number of them, and the times a row was written at are left out.
use mathlib.Core.Option
use prompt_studio_backend.Prelude.{
  ℕ, String, Bool, false, Option, none, some, if◌then◌else◌, ◌==◌, is_some, or_else,
}
use prompt_studio_backend.Core.Json.{Fields}
use prompt_studio_backend.Core.Roles.{ProjectRole, MemberStatus, project_role_eq}
use prompt_studio_backend.Projects.Members.{display_name}
use prompt_studio_backend.Store.{User, Project, ProjectMember, ProjectVersion}

abbrev pub is_owner_role : Option ProjectRole → Bool
is_owner_role none = false
is_owner_role (some role) = role == ProjectRole.owner

-- `UserSummary`
pub record UserSummary : Type 0 where
  pub id : ℕ
  pub email : String
  pub full_name : String
  pub accent_color : String

abbrev pub user_summary : User → UserSummary
user_summary u = record {
  id = u.id;
  email = u.email;
  full_name = u.full_name;
  accent_color = u.accent_color;
}

pub record ProjectSummary : Type 0 where
  pub id : ℕ
  pub name : String
  pub description : String
  pub schema_version : ℕ
  pub doc_version : ℕ
  pub screen_count : ℕ
  pub module_count : ℕ
  pub is_archived : Bool
  pub owner : Option UserSummary
  pub my_role : Option ProjectRole
  pub last_activity_at : Option ℕ

pub record ProjectDetail : Type 0 where
  pub summary : ProjectSummary
  pub doc : Fields
  pub public_token : Option String

pub record MemberRead : Type 0 where
  pub id : ℕ
  pub email : String
  pub role : ProjectRole
  pub status : MemberStatus
  pub user : Option UserSummary
  pub invited_at : Option ℕ
  pub joined_at : Option ℕ
  pub last_opened_at : Option ℕ

pub record PublicLinkRead : Type 0 where
  pub enabled : Bool
  pub token : Option String
  pub enabled_at : Option ℕ

pub record PublicProjectRead : Type 0 where
  pub id : ℕ
  pub name : String
  pub description : String
  pub schema_version : ℕ
  pub doc_version : ℕ
  pub doc : Fields

pub record VersionSummary : Type 0 where
  pub id : ℕ
  pub label : String
  pub doc_version : ℕ
  pub is_auto : Bool
  pub created_at : ℕ
  pub created_by : Option ℕ
  pub created_by_name : String
  pub created_by_email : String

abbrev pub member_read : ProjectMember → Option User → MemberRead
member_read member account = record {
  id = member.id;
  email = member.email;
  role = member.role;
  status = member.status;
  user = Option.map user_summary account;
  invited_at = member.invited_at;
  joined_at = member.joined_at;
  last_opened_at = member.last_opened_at;
}

abbrev pub project_summary : Project → Option ProjectRole → Option User → ProjectSummary
project_summary project my_role owner = record {
  id = project.id;
  name = project.name;
  description = project.description;
  schema_version = project.schema_version;
  doc_version = project.doc_version;
  screen_count = project.screen_count;
  module_count = project.module_count;
  is_archived = project.is_archived;
  owner = Option.map user_summary owner;
  my_role = my_role;
  last_activity_at = project.last_activity_at;
}

-- The public link's token is the owner's alone.
abbrev pub project_detail : Project → Option ProjectRole → Option User → ProjectDetail
project_detail project my_role owner = record {
  summary = project_summary project my_role owner;
  doc = project.doc;
  public_token = if is_owner_role my_role then project.public_token else none;
}

-- The anonymous view: the diagram, and nothing about the team behind it.
abbrev pub public_project : Project → PublicProjectRead
public_project project = record {
  id = project.id;
  name = project.name;
  description = project.description;
  schema_version = project.schema_version;
  doc_version = project.doc_version;
  doc = project.doc;
}

abbrev pub public_link : Project → PublicLinkRead
public_link project = record {
  enabled = is_some project.public_token;
  token = project.public_token;
  enabled_at = project.public_enabled_at;
}

abbrev pub version_summary : ProjectVersion → Option User → VersionSummary
version_summary version author = record {
  id = version.id;
  label = version.label;
  doc_version = version.doc_version;
  is_auto = version.is_auto;
  created_at = version.created_at;
  created_by = version.created_by;
  created_by_name = or_else (Option.map display_name author) "";
  created_by_email = or_else (Option.map (λ (u : User). u.email) author) "";
}
