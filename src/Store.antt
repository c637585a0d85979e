-- ===== src/Store.antt =====
-- The rows of the ORM models (app/modules/*/models.py), the session that a request works in, and
-- the process around it: the collaboration hub, the mail that was sent, the clock, the settings.
-- A column that no modelled rule reads or writes (avatar, theme, timezone, updated_at) is left out.
-- Times are microseconds, ids are numbers drawn from one supply.
pub mod Action
pub mod Rows
pub mod Frames
use prompt_studio_backend.Prelude.{ℕ, ◌*◌, String, Bool, Option, List}
use prompt_studio_backend.Collab.Hub.{Hub}
use prompt_studio_backend.Core.Json.{Fields}
use prompt_studio_backend.Core.Roles.{GlobalRole, ProjectRole, MemberStatus, ActivityType}

-- app/modules/users/models.py
pub record User : Type 0 where
  pub id : ℕ
  pub email : String
  pub full_name : String
  pub accent_color : String
  pub role : GlobalRole
  pub is_active : Bool
  pub is_superuser : Bool
  pub email_verified_at : Option ℕ
  pub last_login_at : Option ℕ
  pub last_seen_at : Option ℕ
  pub failed_login_count : ℕ
  pub locked_until : Option ℕ
  pub is_deleted : Bool
  pub deleted_at : Option ℕ

pub record UserCredentials : Type 0 where
  pub user_id : ℕ
  pub hashed_password : String
  pub must_change_password : Bool
  pub password_changed_at : Option ℕ

-- app/modules/auth/models.py
pub record Session : Type 0 where
  pub id : ℕ
  pub user_id : ℕ
  pub refresh_token_hash : String
  pub access_jti : Option String
  pub access_expires_at : Option ℕ
  pub expires_at : ℕ
  pub last_used_at : Option ℕ
  pub revoked_at : Option ℕ

pub record RevokedToken : Type 0 where
  pub jti : String
  pub expires_at : ℕ

-- app/modules/projects/models.py
pub record Project : Type 0 where
  pub id : ℕ
  pub name : String
  pub description : String
  pub doc : Fields
  pub schema_version : ℕ
  pub doc_version : ℕ
  pub screen_count : ℕ
  pub module_count : ℕ
  pub owner_id : Option ℕ
  pub is_archived : Bool
  pub last_activity_at : Option ℕ
  pub public_token : Option String
  pub public_enabled_at : Option ℕ
  pub public_enabled_by_id : Option ℕ
  pub is_deleted : Bool
  pub deleted_at : Option ℕ
  pub created_by : Option ℕ
  pub updated_by : Option ℕ

pub record ProjectMember : Type 0 where
  pub id : ℕ
  pub project_id : ℕ
  pub email : String
  pub user_id : Option ℕ
  pub role : ProjectRole
  pub status : MemberStatus
  pub invited_by : Option ℕ
  pub invited_at : Option ℕ
  pub joined_at : Option ℕ
  pub last_opened_at : Option ℕ

pub record ProjectVersion : Type 0 where
  pub id : ℕ
  pub project_id : ℕ
  pub label : String
  pub doc : Fields
  pub doc_version : ℕ
  pub is_auto : Bool
  pub created_by : Option ℕ
  pub created_at : ℕ

-- The `meta` of a feed entry holds numbers only: counts, versions, times and ids.
pub record ProjectActivity : Type 0 where
  pub id : ℕ
  pub project_id : ℕ
  pub actor_id : Option ℕ
  pub actor_email : String
  pub kind : ActivityType
  pub summary : String
  pub meta : List (String × ℕ)
  pub created_at : ℕ

pub record ProjectComment : Type 0 where
  pub id : ℕ
  pub project_id : ℕ
  pub author_id : Option ℕ
  pub author_email : String
  pub target_kind : String
  pub target_key : String
  pub body : String
  pub resolved_at : Option ℕ
  pub resolved_by : Option ℕ
  pub is_deleted : Bool
  pub deleted_at : Option ℕ
  pub created_by : Option ℕ
  pub updated_by : Option ℕ
  pub created_at : ℕ

-- app/modules/audit/models.py, without the request's address and browser
pub record AuditLog : Type 0 where
  pub actor_id : Option ℕ
  pub actor_email : String
  pub action : String
  pub entity_type : String
  pub entity_id : ℕ
  pub summary : String

pub record Db : Type 0 where
  pub users : List User
  pub credentials : List UserCredentials
  pub sessions : List Session
  pub revoked_tokens : List RevokedToken
  pub projects : List Project
  pub members : List ProjectMember
  pub versions : List ProjectVersion
  pub activities : List ProjectActivity
  pub comments : List ProjectComment
  pub audit_logs : List AuditLog

-- app/core/config.py: the settings that the modelled rules read
pub record Settings : Type 0 where
  pub project_version_limit : ℕ
  pub max_failed_logins : ℕ
  pub lockout_minutes : ℕ
  pub access_token_expire_minutes : ℕ
  pub refresh_token_expire_days : ℕ

-- What `app.core.mailer` was asked to send.
pub data Mail : Type 0 where
  project_invite : (to project_name inviter token : String) → Bool → Mail
  email_verification password_reset : (to token : String) → Mail
  welcome : String → String → Option String → Mail

-- `db` is what the request's session sees, its own uncommitted writes included; `committed` is
-- what another session sees.
pub record World : Type 0 where
  pub db : Db
  pub open db use *
  pub committed : Db
  pub next_id : ℕ
  pub now : ℕ
  pub settings : Settings
  pub audit_actor : Option (ℕ × String)
  pub hub : Hub
  pub outbox : List Mail

abbrev pub minute : ℕ
minute = 60 * 1_000_000

abbrev pub day : ℕ
day = 24 * 60 * minute
