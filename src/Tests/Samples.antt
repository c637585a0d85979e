-- ===== src/Tests/Samples.antt =====
-- A small world to run the services on: an owner, an editor, and one project with a few snapshots.
use prompt_studio_backend.Prelude.{ℕ, true, false, none, some, [], ◌∷◌}
use prompt_studio_backend.Collab.Hub.{Hub}
use prompt_studio_backend.Collab.Rooms.{Connection}
use prompt_studio_backend.Core.Json.{Fields, null, list, nil, cons, empty, field}
use prompt_studio_backend.Core.Roles.{GlobalRole, ProjectRole, MemberStatus}
use prompt_studio_backend.Projects.Access.{ProjectAccess}
use prompt_studio_backend.Store.{User, Project, ProjectMember, ProjectVersion, Db, World}

abbrev pub blank_user : User
blank_user = record {
  id = 0;
  email = "";
  full_name = "";
  accent_color = "#111111";
  role = GlobalRole.member;
  is_active = true;
  is_superuser = false;
  email_verified_at = none;
  last_login_at = none;
  last_seen_at = none;
  failed_login_count = 0;
  locked_until = none;
  is_deleted = false;
  deleted_at = none;
}

abbrev pub owner : User
owner = record blank_user { id = 1; email = "owner@x.com"; email_verified_at = some 5 }

abbrev pub editor : User
editor = record blank_user { id = 2; email = "editor@x.com"; email_verified_at = some 6 }

-- Registered, with the address not yet confirmed.
abbrev pub newcomer : User
newcomer = record blank_user { id = 3; email = "new@x.com" }

abbrev pub first_doc : Fields
first_doc = field "screens" (list (cons null nil)) empty

abbrev pub board : Project
board = record {
  id = 10;
  name = "Board";
  description = "";
  doc = first_doc;
  schema_version = 1;
  doc_version = 4;
  screen_count = 1;
  module_count = 0;
  owner_id = some 1;
  is_archived = false;
  last_activity_at = none;
  public_token = none;
  public_enabled_at = none;
  public_enabled_by_id = none;
  is_deleted = false;
  deleted_at = none;
  created_by = some 1;
  updated_by = some 1;
}

abbrev pub owner_row : ProjectMember
owner_row = record {
  id = 20;
  project_id = 10;
  email = "owner@x.com";
  user_id = some 1;
  role = ProjectRole.owner;
  status = MemberStatus.active;
  invited_by = some 1;
  invited_at = some 7;
  joined_at = some 7;
  last_opened_at = none;
}

abbrev pub editor_row : ProjectMember
editor_row = record owner_row {
  id = 21;
  email = "editor@x.com";
  user_id = some 2;
  role = ProjectRole.editor;
}

abbrev pub newcomer_row : ProjectMember
newcomer_row = record owner_row {
  id = 22;
  email = "new@x.com";
  user_id = some 3;
  role = ProjectRole.viewer;
}

abbrev pub auto_version : ℕ → ℕ → ProjectVersion
auto_version key at = record {
  id = key;
  project_id = 10;
  label = "";
  doc = first_doc;
  doc_version = 1;
  is_auto = true;
  created_by = some 1;
  created_at = at;
}

abbrev pub some_db : Db
some_db = record {
  users = owner ∷ editor ∷ newcomer ∷ [];
  credentials = [];
  sessions = [];
  revoked_tokens = [];
  projects = board ∷ [];
  members = owner_row ∷ editor_row ∷ newcomer_row ∷ [];
  versions = auto_version 30 50 ∷ auto_version 31 70 ∷ auto_version 32 60 ∷ [];
  activities = [];
  comments = [];
  audit_logs = [];
}

abbrev pub owner_tab : Connection
owner_tab = record {
  id = 40;
  user_id = 1;
  email = "owner@x.com";
  name = "owner";
  accent_color = "#111111";
  role = ProjectRole.owner;
  project_id = 10;
}

abbrev pub editor_tab : Connection
editor_tab = record owner_tab { id = 41; user_id = 2; role = ProjectRole.editor }

abbrev pub other_tab : Connection
other_tab = record editor_tab { id = 42 }

abbrev pub some_hub : Hub
some_hub = record {
  rooms = (10, owner_tab ∷ editor_tab ∷ other_tab ∷ []) ∷ [];
  redis = false;
  presence_hash = [];
  bus = [];
  gone = [];
  delivered = [];
  closed = [];
}

abbrev pub some_world : World
some_world = record {
  db = some_db;
  committed = some_db;
  next_id = 100;
  now = 1000;
  settings = record {
    project_version_limit = 2;
    max_failed_logins = 5;
    lockout_minutes = 15;
    access_token_expire_minutes = 30;
    refresh_token_expire_days = 30;
  };
  audit_actor = some (1, "owner@x.com");
  hub = some_hub;
  outbox = [];
}

abbrev pub owner_access : ProjectAccess
owner_access = record { project = board; member = owner_row; role = ProjectRole.owner }

abbrev pub editor_access : ProjectAccess
editor_access = record { project = board; member = editor_row; role = ProjectRole.editor }
